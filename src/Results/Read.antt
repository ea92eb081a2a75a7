-- ===== src/Results/Read.antt =====
-- `read` of crates/runtime/src/results.rs: one page of a revision. Encoding and decoding of JSON, hex
-- and Arrow belong to libraries, so they are the fields of `Codec`. `Text` is the type of a cursor's text.
pub mod Follow
use rowtrail.Base.{
  Bool, List, Option, Result, [], eqb_list, err, false, guard, if◌then◌else◌, leb, length, ltb,
  none, ok, ok_or, some, suc, true, zero, ℕ, ◌&&◌, ◌*◌, ◌+◌, ◌-◌, ◌==◌, ◌>>=◌, ◌>>◌, ◌∷◌,
}
use rowtrail.Jobs.{DbError, JobState, PartRow, Quality, Tables, Validity, valid}
use rowtrail.Jobs.Snapshot.{Snapshot, snapshot}
use rowtrail.Results.{
  ReadError, bad_cursor, bad_limits, bad_offset, corrupt, source_invalid, store_error, too_small,
  unknown_column,
}
use rowtrail.Results.Fetch.{DiskFile, InlinePart, InlineSource, verified_bytes, verified_inline}
use rowtrail.Results.Page.{Limits, Metrics, Progress, initial, outcome, page_parts}

pub record Cursor : Type 0 where
  pub store_id : ℕ
  pub result_ref : ℕ
  pub revision : ℕ
  pub offset : ℕ
  pub columns : List ℕ

-- contracts: `ReadParams`
pub record ReadParams (Text : Type 0) : Type 0 where
  pub result_ref : ℕ
  pub revision : Option ℕ
  pub cursor : Option Text
  pub columns : List ℕ
  pub max_rows : ℕ
  pub max_bytes : ℕ

pub record Response (Row Text : Type 0) : Type 0 where
  pub result_ref : ℕ
  pub revision : ℕ
  pub row_count : ℕ
  pub schema : List ℕ
  pub rows : List Row
  pub quality : Quality
  pub validity : Validity
  pub job_state : JobState
  pub returned_rows : ℕ
  pub has_more : Bool
  pub next_cursor : Option Text
  pub read_metrics : Option Metrics

-- The libraries' encoders, decoders and encoded lengths.
pub record Codec (Row Text : Type 0) : Type 0 where
  pub digest : List ℕ → ℕ
  pub decode_cursor : Text → Result ReadError Cursor
  pub encode_cursor : Cursor → Text
  pub cursor_bytes : Cursor → ℕ
  pub width : ℕ → ℕ
  pub index_of : ℕ → ℕ → Option ℕ
  pub decode_part :
      List ℕ → List ℕ → Result ReadError (List (Result ReadError (List (Result ReadError Row))))
  pub encoded : Row → ℕ
  pub response_bytes : Response Row Text → ℕ

-- The path and size of a part's file, as its stored identity has them.
pub record FileSource : Type 0 where
  pub path : ℕ
  pub size : ℕ

-- The open store, and where a part's identity says that its bytes are.
pub record Workspace : Type 0 where
  pub store_id : ℕ
  pub database : ℕ
  pub disk : ℕ → Option DiskFile
  pub inline_parts : List InlinePart
  pub source_of : PartRow → InlineSource
  pub file_of : PartRow → FileSource

-- contracts: `FRAME_LIMIT`
abbrev pub frame_limit : ℕ
frame_limit = 1024 * 1024

-- `is_none_or`
unfoldable pub agrees : Option ℕ → ℕ → Bool
agrees none n = true
agrees (some m) n = m == n

unfoldable pub is_valid : Validity → Bool
is_valid valid = true
is_valid _ = false

-- `?` on an error of the store
unfoldable pub from_store {ℓ} : {A : Type ℓ} → Result DbError A → Result ReadError A
from_store (ok a) = ok a
from_store (err e) = err (store_error e)

unfoldable pub count_up : ℕ → ℕ → List ℕ
count_up zero from = []
count_up (suc n) from = from ∷ count_up n (from + 1)

unfoldable pub indices_of : (ℕ → Option ℕ) → List ℕ → Result ReadError (List ℕ)
indices_of index [] = ok []
indices_of index (column ∷ columns) = do
  i ← ok_or (index column) unknown_column
  rest ← indices_of index columns
  ok (i ∷ rest)

-- No column named is every column.
unfoldable pub selected_columns : ℕ → (ℕ → Option ℕ) → List ℕ → Result ReadError (List ℕ)
unfolding count_up indices_of
selected_columns width index [] = ok (count_up width 0)
selected_columns width index (column ∷ columns) = indices_of index (column ∷ columns)

unfoldable pub fetch_part : (List ℕ → ℕ) → Workspace → PartRow → Result ReadError (List ℕ)
unfolding verified_bytes verified_inline
fetch_part digest w part =
    if part.inline
    then guard ((w.source_of part).database == w.database) corrupt
      >> verified_inline digest w.inline_parts (w.source_of part) part.bytes part.checksum
    else verified_bytes digest w.disk (w.file_of part).path (w.file_of part).size part.checksum

abbrev pub revision_of : Option Cursor → Option ℕ → Option ℕ
revision_of none revision = revision
revision_of (some c) revision = some c.revision

abbrev pub start_at : Option Cursor → ℕ
start_at none = 0
start_at (some c) = c.offset

module _ {Row Text : Type 0} (codec : Codec Row Text) (w : Workspace) where
  -- The cursor, decoded and compared with the request.
  unfoldable pub cursor_in : ReadParams Text → Option Text → Result ReadError (Option Cursor)
  unfolding eqb_list agrees
  cursor_in p none = ok none
  cursor_in p (some text) = do
    c ← codec.decode_cursor text
    guard
        (c.store_id == w.store_id
          && c.result_ref == p.result_ref
          && eqb_list c.columns p.columns
          && agrees p.revision c.revision)
        bad_cursor
    ok (some c)

  abbrev pub cursor_at : ReadParams Text → Snapshot → ℕ → Cursor
  cursor_at p snap offset = record {
    store_id = w.store_id;
    result_ref = p.result_ref;
    revision = snap.revision;
    offset = offset;
    columns = p.columns;
  }

  -- `cursor_for`
  abbrev pub cursor_for : ReadParams Text → Snapshot → ℕ → Option Text
  cursor_for p snap offset =
      if leb snap.rows offset then none else some (codec.encode_cursor (cursor_at p snap offset))

  abbrev pub page : ReadParams Text → Snapshot → List ℕ → ℕ → Bool → Option Text → Response Row Text
  page p snap schema returned has_more next_cursor = record {
    result_ref = p.result_ref;
    revision = snap.revision;
    row_count = snap.rows;
    schema = schema;
    rows = [];
    quality = snap.quality;
    validity = snap.validity;
    job_state = snap.job_state;
    returned_rows = returned;
    has_more = has_more;
    next_cursor = next_cursor;
    read_metrics = none;
  }

  abbrev pub limits_of : ReadParams Text → Snapshot → List ℕ → ℕ → Limits
  limits_of p snap schema start = record {
    start = start;
    total = snap.rows;
    max_rows = p.max_rows;
    max_bytes = p.max_bytes;
    metadata_bytes = codec.response_bytes (page p snap schema 0 true none);
    cursor_zero_bytes = codec.cursor_bytes (cursor_at p snap 0);
  }

  -- The page of a finished loop.
  abbrev pub finished_page :
      ReadParams Text → Snapshot → List ℕ → ℕ → Progress Row → Response Row Text
  finished_page p snap schema start q =
      record (page p snap schema q.returned (ltb (start + q.returned) snap.rows)
        (cursor_for p snap (start + q.returned))) { rows = q.rows; read_metrics = some q.metrics }

  unfoldable pub read_from : ReadParams Text → Snapshot → ℕ → Result ReadError (Response Row Text)
  unfolding is_valid selected_columns page_parts fetch_part
  read_from p snap start = do
    guard (is_valid snap.validity) source_invalid
    guard (leb start snap.rows) bad_offset
    schema ← selected_columns (codec.width snap.schema) (codec.index_of snap.schema) p.columns
    let first = page p snap schema 0 (ltb start snap.rows) (cursor_for p snap start)
    guard (leb (codec.response_bytes first + 256) p.max_bytes) too_small
    flow ←
        page_parts codec.encoded (limits_of p snap schema start) length (fetch_part codec.digest w)
          (codec.decode_part schema) initial snap.parts
    let response = finished_page p snap schema start (outcome flow)
    guard (leb (codec.response_bytes response + 128) p.max_bytes) too_small
    ok response

  -- `read`
  unfoldable pub read : Tables → ReadParams Text → Result ReadError (Response Row Text)
  unfolding cursor_in from_store read_from
  read db p = do
    guard (leb p.max_bytes (frame_limit - 512) && leb p.max_rows 10000) bad_limits
    cursor ← cursor_in p p.cursor
    snap ← from_store (snapshot p.result_ref (revision_of cursor p.revision) db)
    read_from p snap (start_at cursor)
