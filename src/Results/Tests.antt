-- ===== src/Results/Tests.antt =====
-- Runs of the reader.
use rowtrail.Base.{
  Ensures, List, Option, OptionAny, Result, [], arith, err, false, find, if◌then◌else◌, length, map,
  none, ok, refl, replicate, some, suc, zero, ℕ, ◌*◌, ◌++◌, ◌+◌, ◌/◌, ◌==◌, ◌∷◌, ◌≡◌, ◌⊎◌,
}
use rowtrail.Jobs.{ResultRow, Tables, running, valid}
use rowtrail.Jobs.Snapshot.{
  Snapshot, find_revision, is_expired, or_head, read_row, select, snapshot, start_of,
}
use rowtrail.Jobs.Tests.{one_part, plain_quality, running_tables}
use rowtrail.Results.{ReadError, corrupt}
use rowtrail.Results.Fetch.{DiskFile, IsIntact, verified_bytes, verified_bytes-IsIntact}
use rowtrail.Results.Page.{added_bytes, digits, page_metadata_bytes}
use rowtrail.Results.Page.Rows.{concat}
use rowtrail.Results.Read.{Codec, Cursor, ReadParams, Workspace, read, selected_columns}
use rowtrail.Results.Read.Follow.{IsSame, follow, follow-rows}

-- A file of 64 bytes.
abbrev part_file : DiskFile
part_file = record { size = 64; content = replicate 64 1 }

abbrev one_file : ℕ → Option DiskFile
one_file path = if path == 5 then some part_file else none

abbrev eighth : List ℕ → ℕ
eighth bytes = length bytes / 8

abbrev cells : List (Result ReadError ℕ)
cells = ok 100 ∷ ok 101 ∷ []

abbrev more_cells : List (Result ReadError ℕ)
more_cells = ok 102 ∷ []

-- Two batches; a cursor is its own text.
abbrev plain_codec : Codec ℕ Cursor
plain_codec = record {
  digest = eighth;
  decode_cursor = λ c. ok c;
  encode_cursor = λ c. c;
  cursor_bytes = λ c. 40;
  width = λ schema. 1;
  index_of = λ schema column. none;
  decode_part = λ schema bytes. ok (ok cells ∷ ok more_cells ∷ []);
  encoded = λ row. digits row + 2;
  response_bytes = λ r. 200 + 6 * length r.rows;
}

abbrev workspace : Workspace
workspace = record {
  store_id = 1;
  database = 2;
  disk = one_file;
  inline_parts = [];
  source_of = λ part. record { database = 2; result_ref = 2; seq = part.seq };
  file_of = λ part. record { path = 5; size = 64 };
}

abbrev request : ReadParams Cursor
request = record {
  result_ref = 2;
  revision = none;
  cursor = none;
  columns = [];
  max_rows = 2;
  max_bytes = 2000;
}

abbrev opened : Snapshot
opened = record {
  schema = 4;
  quality = plain_quality;
  revision = 1;
  rows = 3;
  parts = one_part.parts;
  validity = valid;
  job_state = running;
}

opens : snapshot 2 none running_tables ≡ ok opened
unfolding snapshot find read_row or_head find_revision start_of select is_expired
opens = refl

-- The job goes on and publishes a second part, which moves the head to another revision.
abbrev two_parts : ResultRow
two_parts = record one_part {
  head = 2;
  parts =
      one_part.parts ++ record { seq = 1; rows = 2; bytes = 32; checksum = 9; inline = false } ∷ [];
  revisions =
      one_part.revisions
      ++ record { revision = 2; cutoff = 2; rows = 5; quality = plain_quality } ∷ [];
}

abbrev later_tables : Tables
later_tables = record running_tables { results = (2, two_parts) ∷ [] }

-- The store at each request: the head moves after the first.
abbrev growing : ℕ → Tables
growing zero = running_tables
growing (suc n) = later_tables

-- Two pages, of two rows and of one, both of the first revision.
two_pages : follow plain_codec workspace 4 growing request ≡ some (ok (100 ∷ 101 ∷ 102 ∷ []))
unfolding follow read snapshot find page_metadata_bytes digits added_bytes
two_pages = refl

growing-IsSame : (n : ℕ) → Ensures (IsSame opened) (snapshot 2 (some 1) (growing n))
unfolding snapshot find read_row or_head find_revision start_of select is_expired
growing-IsSame zero = (refl, refl, refl, refl)
growing-IsSame (suc n) = (refl, refl, refl, refl)

follow-rows_example :
    OptionAny
      (Ensures (λ rows. map ok rows ≡ concat ((cells ++ more_cells) ∷ [])))
      (follow plain_codec workspace 4 growing request)
follow-rows_example =
    follow-rows plain_codec workspace opened (0 ∷ []) ((cells ++ more_cells) ∷ []) (λ c. refl)
      ((refl, λ bytes got. (cells ∷ more_cells ∷ [], refl, unfold concat in refl)), tt)
      (unfold concat in refl) growing request refl opens growing-IsSame
      (unfold selected_columns in refl) (omega arith)

verified_bytes-IsIntact_example :
    ((verified_bytes eighth one_file 5 64 8 ≡ ok part_file.content)
      × IsIntact eighth part_file 64 8)
    ⊎ ((verified_bytes eighth one_file 5 64 8 ≡ err corrupt) × ¬ IsIntact eighth part_file 64 8)
verified_bytes-IsIntact_example = verified_bytes-IsIntact eighth one_file 5 64 8 part_file refl
