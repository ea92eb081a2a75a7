-- ===== src/Results/Page/Sound.antt =====
-- results.rs: the loops of `read` return consecutive rows, from the start of the page.
use rowtrail.Base.{
  Bool-cases, Ensures, Ensures-bind, Ensures-value, List, Result, [], ap, arith, drop, err, inl,
  inr, leb, leb→le, length, length-map, map, ok, refl, sym, ℕ, ◌++◌, ◌+◌, ◌<◌, ◌>>=◌, ◌∙◌, ◌∷◌, ◌≡◌,
  ◌≤◌, ◌⊎◌,
}
use mathlib.Core.List.{append-nil, append_assoc}
use rowtrail.Jobs.{PartRow}
use rowtrail.Results.{ReadError}
use rowtrail.Results.Page.{
  Flow, Limits, Progress, initial, more, note_part, outcome, page_batches, page_part, page_parts,
  page_row, page_rows, stop, unless_stopped,
}
use rowtrail.Results.Page.Rows.{
  Collected, FlowSound, concat, drop-short, full-Broken, length-drop, note-Collected,
  page_row-Sound, skip-Collected,
}

module _ {Row : Type 0} (l : Limits) where
  -- A loop that goes on unless its body stopped it.
  unless_stopped-Sound :
      (seen seen' all : List (Result ReadError Row)) (m : Result ReadError (Flow Row))
      (next : Progress Row → Result ReadError (Flow Row))
      → Ensures (FlowSound l seen all) m
      → ((q : Progress Row) → Collected l seen q → Ensures (FlowSound l seen' all) (next q))
      → Ensures (FlowSound l seen' all) (m >>= unless_stopped next)
  unless_stopped-Sound seen seen' all (err e) next h k = tt
  unless_stopped-Sound seen seen' all (ok (more q)) next h k = k q h
  unless_stopped-Sound seen seen' all (ok (stop q)) next h k = h

module _ {Row Bytes : Type 0} (fetch : PartRow → Result ReadError Bytes)
    (decode : Bytes
      → Result ReadError (List (Result ReadError (List (Result ReadError Row))))) where
  -- What a part holds, as many rows as its record says: it may fail to be fetched.
  abbrev pub Contains : PartRow → List (Result ReadError Row) → Type 0
  Contains part cells =
      (length cells ≡ part.rows)
      × ((bytes : Bytes)
          → fetch part ≡ ok bytes
          → (css : List (List (Result ReadError Row))) × (decode bytes ≡ ok (map ok css))
            × (concat css ≡ cells))

  abbrev pub AllContain : List PartRow → List (List (Result ReadError Row)) → Type 0
  AllContain [] [] = Unit
  AllContain [] (cells ∷ rest) = ⊥
  AllContain (part ∷ parts) [] = ⊥
  AllContain (part ∷ parts) (cells ∷ rest) = Contains part cells × AllContain parts rest

module _ {Row : Type 0} (encoded : Row → ℕ) (l : Limits) where
  page_rows-Sound :
      (seen cells rest : List (Result ReadError Row)) (p : Progress Row)
      → Collected l seen p
      → Ensures
          (FlowSound l (seen ++ cells) (seen ++ (cells ++ rest)))
          (page_rows encoded l p cells)
  unfolding page_rows
  page_rows-Sound seen [] rest p h = rw (append-nil seen) h
  page_rows-Sound seen (cell ∷ cells) rest p h =
      unless_stopped-Sound l (seen ++ cell ∷ []) (seen ++ cell ∷ cells)
        (seen ++ cell ∷ (cells ++ rest)) (page_row encoded l p cell)
        (λ q. page_rows encoded l q cells) (page_row-Sound encoded l seen (cells ++ rest) p cell h)
        λ q k.
          rw
            (← append_assoc seen (cell ∷ []) cells, ← append_assoc seen (cell ∷ []) (cells ++ rest))
            (page_rows-Sound (seen ++ cell ∷ []) cells rest q k)

  page_batches-Sound :
      (seen : List (Result ReadError Row)) (css : List (List (Result ReadError Row)))
      (rest : List (Result ReadError Row)) (p : Progress Row)
      → Collected l seen p
      → Ensures
          (FlowSound l (seen ++ concat css) (seen ++ (concat css ++ rest)))
          (page_batches encoded l p (map ok css))
  unfolding page_batches concat
  page_batches-Sound seen [] rest p h = rw (append-nil seen) h
  page_batches-Sound seen (cells ∷ css) rest p h =
      unless_stopped-Sound l (seen ++ cells) (seen ++ (cells ++ concat css))
        (seen ++ (cells ++ concat css ++ rest)) (page_rows encoded l p cells)
        (λ q. page_batches encoded l q (map ok css))
        (rw (append_assoc cells (concat css) rest)
          (page_rows-Sound seen cells (concat css ++ rest) p h))
        λ q k.
          rw
            (
              ← append_assoc seen cells (concat css),
              append_assoc cells (concat css) rest,
              ← append_assoc seen cells (concat css ++ rest),
            )
            (page_batches-Sound (seen ++ cells) css rest q k)

  module _ {Bytes : Type 0} (size : Bytes → ℕ) (fetch : PartRow → Result ReadError Bytes)
      (decode : Bytes
        → Result ReadError (List (Result ReadError (List (Result ReadError Row))))) where
    page_part-Sound :
        (seen cells rest : List (Result ReadError Row)) (p : Progress Row) (part : PartRow)
        → Collected l seen p
        → Contains fetch decode part cells
        → Ensures
            (FlowSound l (seen ++ cells) (seen ++ (cells ++ rest)))
            (page_part encoded l size fetch decode p part)
    unfolding page_part
    page_part-Sound seen cells rest p part h (e, reads) =
        elim (Bool-cases (leb (p.position + part.rows) l.start)) [
          | inl a ↦
              let before = leb→le (p.position + part.rows) l.start a in
              rw a (skip-Collected l seen cells part.rows p h e before)
          | inr a ↦ elim (Bool-cases (leb l.max_rows p.returned)) [
            | inl b ↦
                rw (a, b) (full-Broken l seen (cells ++ rest) p h (leb→le l.max_rows p.returned b))
            | inr b ↦
                rw (a, b)
                  (Ensures-bind (λ bytes. fetch part ≡ ok bytes) _ (fetch part) _
                    (Ensures-value (fetch part)) λ bytes got. loaded bytes (reads bytes got))
          ]
        ]
      where
        loaded :
            (bytes : Bytes)
            → (css : List (List (Result ReadError Row))) × (decode bytes ≡ ok (map ok css))
              × (concat css ≡ cells)
            → Ensures (FlowSound l (seen ++ cells) (seen ++ (cells ++ rest))) (
                decode bytes
                >>= page_batches encoded l (note_part part.inline (size bytes) part.bytes p))
        loaded bytes (css, d, c) =
            rw (d, ← c)
              (page_batches-Sound seen css rest (note_part part.inline (size bytes) part.bytes p)
                (note-Collected l seen p h))

    pub page_parts-Sound :
        (seen : List (Result ReadError Row)) (parts : List PartRow)
        (css : List (List (Result ReadError Row))) (p : Progress Row)
        → Collected l seen p
        → AllContain fetch decode parts css
        → Ensures
            (FlowSound l (seen ++ concat css) (seen ++ concat css))
            (page_parts encoded l size fetch decode p parts)
    unfolding page_parts concat
    page_parts-Sound seen [] [] p h a = rw (append-nil seen) h
    page_parts-Sound seen [] (cells ∷ css) p h a = absurd a
    page_parts-Sound seen (part ∷ parts) [] p h a = absurd a
    page_parts-Sound seen (part ∷ parts) (cells ∷ css) p h a =
        unless_stopped-Sound l (seen ++ cells) (seen ++ (cells ++ concat css))
          (seen ++ (cells ++ concat css)) (page_part encoded l size fetch decode p part)
          (λ q. page_parts encoded l size fetch decode q parts)
          (page_part-Sound seen cells (concat css) p part h a.0)
          λ q k.
            rw (← append_assoc seen cells (concat css))
              (page_parts-Sound (seen ++ cells) parts css q k a.1)

-- The page that a loop leaves: consecutive cells from the start, with what is left after them.
pub record IsPage {Row : Type 0} (l : Limits) (all : List (Result ReadError Row)) (p : Progress Row)
    : Type 0 where
  pub left : List (Result ReadError Row)
  pub prefix : drop l.start all ≡ map ok p.rows ++ left
  pub row_count : p.returned ≡ length p.rows
  pub in_limit : p.returned ≤ l.max_rows
  pub progress : (l.max_rows ≡ 0) ⊎ ((length all ≤ l.start) ⊎ (0 < p.returned))

pub FlowSound-IsPage :
    {Row : Type 0} (l : Limits) (all : List (Result ReadError Row)) (flow : Flow Row)
    → FlowSound l all all flow
    → IsPage l all (outcome flow)
FlowSound-IsPage l all (more p) h = record {
  left = [];
  prefix = sym h.collected ∙ sym (append-nil (map ok p.rows));
  row_count = h.row_count;
  in_limit = h.in_limit;
  progress = grind (
    arith,
    h.row_count,
    length-map {B = Result ReadError _} ok p.rows,
    ap length h.collected,
    length-drop l.start all,
  );
}
FlowSound-IsPage l all (stop p) h = record {
  left = h.left;
  prefix = h.prefix;
  row_count = h.row_count;
  in_limit = h.in_limit;
  progress = elim h.progress [ inl a ↦ inl a | inr a ↦ inr (inr a) ];
}

-- The loops start with an empty page.
pub initial-Collected : {Row : Type 0} (l : Limits) → Collected {Row = Row} l [] initial
initial-Collected l = record {
  counted = refl;
  collected = sym (drop-short l.start [] (omega arith));
  row_count = refl;
  in_limit = omega arith;
}
