-- ===== src/Results/Page.antt =====
-- The loops of `read` in crates/runtime/src/results.rs, which collect the rows of one page under its
-- budget of rows and bytes. Decoding and formatting belong to the Arrow library: a part decodes to
-- batches, a batch to rows, and either may be an error.
pub mod Rows
pub mod Sound
use rowtrail.Base.{
  Bool, List, Result, [], false, guard, if◌then◌else◌, leb, ltb, ok, suc, true, zero, ℕ, ◌*◌, ◌++◌,
  ◌+◌, ◌-◌, ◌/◌, ◌>>=◌, ◌>>◌, ◌∷◌,
}
use rowtrail.Jobs.{PartRow}
use rowtrail.Results.{ReadError, too_small}

count_digits : ℕ → ℕ → ℕ
count_digits zero n = 1
count_digits (suc fuel) n =
    let rest = count_digits fuel (n / 10) in if ltb n 10 then 1 else rest + 1

-- The digits of a number below 10 ^ 20, so of every u64: `checked_ilog10`, or 0, and 1.
unfoldable pub digits : ℕ → ℕ
unfolding count_digits
digits n = count_digits 19 n

-- What the metadata of a page takes, from what it takes with no cursor and one-digit counts.
unfoldable pub page_metadata_bytes : ℕ → ℕ → ℕ → ℕ → ℕ → ℕ
page_metadata_bytes base cursor_zero offset rows total =
    let cursor = if ltb offset total then 2 * (cursor_zero + digits offset - 1) + 2 else 4 in
    base + digits rows - 1 + (if leb total offset then 1 else 0) + cursor - 4

-- What the loops read and do not change.
pub record Limits : Type 0 where
  pub start : ℕ
  pub total : ℕ
  pub max_rows : ℕ
  pub max_bytes : ℕ
  pub metadata_bytes : ℕ
  pub cursor_zero_bytes : ℕ

pub record Metrics : Type 0 where
  pub bytes_verified : ℕ
  pub bytes_read : ℕ
  pub inline_bytes : ℕ

pub record Progress (Row : Type 0) : Type 0 where
  pub position : ℕ
  pub returned : ℕ
  pub rows : List Row
  pub row_bytes : ℕ
  pub metrics : Metrics

-- Go on, or `break 'parts`.
pub data Flow (Row : Type 0) : Type 0 where
  more : Progress Row → Flow Row
  stop : Progress Row → Flow Row

abbrev pub unless_stopped :
    {Row : Type 0}
    → (Progress Row → Result ReadError (Flow Row))
    → Flow Row
    → Result ReadError (Flow Row)
unless_stopped next (more p) = next p
unless_stopped next (stop p) = ok (stop p)

-- What the outermost loop leaves.
abbrev pub outcome : {Row : Type 0} → Flow Row → Progress Row
outcome (more p) = p
outcome (stop p) = p

abbrev pub initial : {Row : Type 0} → Progress Row
initial = record {
  position = 0;
  returned = 0;
  rows = [];
  row_bytes = 0;
  metrics = record { bytes_verified = 0; bytes_read = 0; inline_bytes = 0 };
}

unfoldable pub is_empty : {Row : Type 0} → List Row → Bool
is_empty [] = true
is_empty (x ∷ xs) = false

abbrev pub skip : {Row : Type 0} → ℕ → Progress Row → Progress Row
skip n p = record p { position = p.position + n }

abbrev pub add_row : {Row : Type 0} → Row → ℕ → Progress Row → Progress Row
add_row row added p = record p {
  position = p.position + 1;
  returned = p.returned + 1;
  rows = p.rows ++ row ∷ [];
  row_bytes = p.row_bytes + added;
}

abbrev pub note_part : {Row : Type 0} → Bool → ℕ → ℕ → Progress Row → Progress Row
note_part inline loaded size p = record p {
  metrics = record {
    bytes_verified = p.metrics.bytes_verified + loaded;
    bytes_read = p.metrics.bytes_read + (if inline then 0 else size);
    inline_bytes = p.metrics.inline_bytes + (if inline then size else 0);
  };
}

-- The encoded length of a row, and a comma before every row but the first.
module _ {Row : Type 0} (encoded : Row → ℕ) (l : Limits) where
  unfoldable pub added_bytes : Row → Progress Row → ℕ
  unfolding is_empty
  added_bytes row p = encoded row + (if is_empty p.rows then 0 else 1)

  unfoldable pub overflows : Row → Progress Row → Bool
  overflows row p = ltb l.max_bytes (
      page_metadata_bytes l.metadata_bytes l.cursor_zero_bytes (l.start + p.returned + 1)
        (p.returned + 1) l.total
      + p.row_bytes
      + added_bytes row p
      + 256)

  unfoldable pub offer : Progress Row → Row → Result ReadError (Flow Row)
  unfolding overflows
  offer p row =
      if overflows row p
      then guard (ltb 0 p.returned) too_small >> ok (stop p)
      else ok (more (add_row row (added_bytes row p) p))

  unfoldable pub page_row : Progress Row → Result ReadError Row → Result ReadError (Flow Row)
  unfolding offer
  page_row p cell =
      if ltb p.position l.start
      then ok (more (skip 1 p))
      else if leb l.max_rows p.returned
      then ok (stop p)
      else cell >>= offer p

  unfoldable pub page_rows :
      Progress Row → List (Result ReadError Row) → Result ReadError (Flow Row)
  unfolding page_row
  page_rows p [] = ok (more p)
  page_rows p (cell ∷ cells) = do
    flow ← page_row p cell
    unless_stopped (λ q. page_rows q cells) flow

  unfoldable pub page_batches :
      Progress Row
      → List (Result ReadError (List (Result ReadError Row)))
      → Result ReadError (Flow Row)
  unfolding page_rows
  page_batches p [] = ok (more p)
  page_batches p (batch ∷ batches) = do
    cells ← batch
    flow ← page_rows p cells
    unless_stopped (λ q. page_batches q batches) flow

  -- `fetch` gives the checked bytes of a part, `decode` its batches.
  module _ {Bytes : Type 0} (size : Bytes → ℕ) (fetch : PartRow → Result ReadError Bytes)
      (decode : Bytes
        → Result ReadError (List (Result ReadError (List (Result ReadError Row))))) where
    unfoldable pub page_part : Progress Row → PartRow → Result ReadError (Flow Row)
    unfolding page_batches
    page_part p part =
        if leb (p.position + part.rows) l.start
        then ok (more (skip part.rows p))
        else if leb l.max_rows p.returned
        then ok (stop p)
        else do
          bytes ← fetch part
          batches ← decode bytes
          page_batches (note_part part.inline (size bytes) part.bytes p) batches

    unfoldable pub page_parts : Progress Row → List PartRow → Result ReadError (Flow Row)
    unfolding page_part
    page_parts p [] = ok (more p)
    page_parts p (part ∷ parts) = do
      flow ← page_part p part
      unless_stopped (λ q. page_parts q parts) flow
