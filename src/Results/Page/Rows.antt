-- ===== src/Results/Page/Rows.antt =====
-- results.rs: what one row adds to a page, and when the loop breaks off.
use rowtrail.Base.{
  Bool-cases, Ensures, List, Result, [], ap, arith, drop, err, inl, inr, leb, leb→le, length,
  length-append, ltb, ltb→lt, map, ok, refl, suc, sym, zero, ℕ, ◌++◌, ◌+◌, ◌-◌, ◌<◌, ◌>>=◌, ◌∙◌,
  ◌∷◌, ◌≡◌, ◌≤◌, ◌⊎◌,
}
use mathlib.Core.List.{map-append}
use rowtrail.Results.{ReadError}
use rowtrail.Results.Page.{
  Flow, Limits, Metrics, Progress, add_row, added_bytes, more, offer, overflows, page_row, skip,
  stop,
}

unfoldable pub concat {ℓ} : {A : Type ℓ} → List (List A) → List A
concat [] = []
concat (xs ∷ xss) = xs ++ concat xss

pub drop-short {ℓ} : {A : Type ℓ} (n : ℕ) (xs : List A) → length xs ≤ n → drop n xs ≡ []
drop-short zero [] h = refl
drop-short zero (x ∷ xs) h = absurd (omega arith)
drop-short (suc n) [] h = refl
drop-short (suc n) (x ∷ xs) h = drop-short n xs (omega arith)

pub drop-append {ℓ} :
    {A : Type ℓ} (n : ℕ) (xs ys : List A) → n ≤ length xs → drop n (xs ++ ys) ≡ drop n xs ++ ys
drop-append zero xs ys h = refl
drop-append (suc n) [] ys h = absurd (omega arith)
drop-append (suc n) (x ∷ xs) ys h = drop-append n xs ys (omega arith)

pub length-drop {ℓ} : {A : Type ℓ} (n : ℕ) (xs : List A) → length (drop n xs) ≡ length xs - n
length-drop zero xs = omega arith
length-drop (suc n) [] = omega arith
length-drop (suc n) (x ∷ xs) = omega (arith, length-drop n xs)

drop_sum {ℓ} : {A : Type ℓ} (a b c : ℕ) (xs : List A) → c ≡ a + b → drop c xs ≡ drop b (drop a xs)
drop_sum zero b c xs h = let e : c ≡ b = omega arith in ap (λ n. drop n xs) e
drop_sum (suc a) b zero xs h = absurd (omega arith)
drop_sum (suc a) b (suc c) [] h = sym (drop-short b [] (omega arith))
drop_sum (suc a) b (suc c) (x ∷ xs) h = drop_sum a b c xs (omega arith)

pub drop-drop {ℓ} : {A : Type ℓ} (a b : ℕ) (xs : List A) → drop (a + b) xs ≡ drop b (drop a xs)
drop-drop a b xs = drop_sum a b (a + b) xs refl

pub drop_past {ℓ} : {A : Type ℓ} (n : ℕ) (xs ys : List A) → n ≡ length xs → drop n (xs ++ ys) ≡ ys
drop_past zero [] ys h = refl
drop_past zero (x ∷ xs) ys h = absurd (omega arith)
drop_past (suc n) [] ys h = absurd (omega arith)
drop_past (suc n) (x ∷ xs) ys h = drop_past n xs ys (omega arith)

module _ {Row : Type 0} (l : Limits) where
  -- After the cells `seen`, the page holds what follows the start.
  pub record Collected (seen : List (Result ReadError Row)) (p : Progress Row) : Type 0 where
    pub counted : p.position ≡ length seen
    pub collected : map ok p.rows ≡ drop l.start seen
    pub row_count : p.returned ≡ length p.rows
    pub in_limit : p.returned ≤ l.max_rows

  -- A page whose loop broke off, with what was left of all the cells.
  pub record Broken (all : List (Result ReadError Row)) (p : Progress Row) : Type 0 where
    pub left : List (Result ReadError Row)
    pub prefix : drop l.start all ≡ map ok p.rows ++ left
    pub row_count : p.returned ≡ length p.rows
    pub in_limit : p.returned ≤ l.max_rows
    pub progress : (l.max_rows ≡ 0) ⊎ (0 < p.returned)

  abbrev pub FlowSound :
      List (Result ReadError Row) → List (Result ReadError Row) → Flow Row → Type 0
  FlowSound seen all (more p) = Collected seen p
  FlowSound seen all (stop p) = Broken all p

  pub break-Broken :
      (seen rest : List (Result ReadError Row)) (p : Progress Row)
      → Collected seen p
      → l.start ≤ p.position
      → (l.max_rows ≡ 0) ⊎ (0 < p.returned)
      → Broken (seen ++ rest) p
  break-Broken seen rest p h past some_row = record {
    left = rest;
    prefix =
        drop-append l.start seen rest (omega (arith, h.counted))
        ∙ ap (λ t. t ++ rest) (sym h.collected);
    row_count = h.row_count;
    in_limit = h.in_limit;
    progress = some_row;
  }

  -- With no room left the loop breaks off, before the start too.
  pub full-Broken :
      (seen rest : List (Result ReadError Row)) (p : Progress Row)
      → Collected seen p
      → l.max_rows ≤ p.returned
      → Broken (seen ++ rest) p
  full-Broken seen rest p h full = elim (Bool-cases (leb l.start p.position)) [
    | inl a ↦ break-Broken seen rest p h (leb→le l.start p.position a) (grind arith)
    | inr a ↦
        let none_yet : map ok p.rows ≡ [] =
          h.collected ∙ drop-short l.start seen (ground (arith, h.counted)) in
        record {
          left = drop l.start (seen ++ rest);
          prefix = ap (λ t. t ++ drop l.start (seen ++ rest)) (sym none_yet);
          row_count = h.row_count;
          in_limit = h.in_limit;
          progress = grind arith;
        }
  ]

  pub note-Collected :
      (seen : List (Result ReadError Row)) (p : Progress Row) {metrics : Metrics}
      → Collected seen p
      → Collected seen (record p { metrics = metrics })
  note-Collected seen p h = record {
    counted = h.counted;
    collected = h.collected;
    row_count = h.row_count;
    in_limit = h.in_limit;
  }

  -- Cells before the start are passed over.
  pub skip-Collected :
      (seen cells : List (Result ReadError Row)) (n : ℕ) (p : Progress Row)
      → Collected seen p
      → length cells ≡ n
      → p.position + n ≤ l.start
      → Collected (seen ++ cells) (skip n p)
  skip-Collected seen cells n p h e before = record {
    counted = omega (arith, length-append seen cells, h.counted);
    collected =
        h.collected
        ∙ drop-short l.start seen (omega (arith, h.counted))
        ∙ sym (
            drop-short l.start (seen ++ cells)
              (omega (arith, length-append seen cells, h.counted)));
    row_count = h.row_count;
    in_limit = h.in_limit;
  }

  add_row-Collected :
      (seen : List (Result ReadError Row)) (row : Row) (added : ℕ) (p : Progress Row)
      → Collected seen p
      → l.start ≤ p.position
      → p.returned < l.max_rows
      → Collected (seen ++ ok row ∷ []) (add_row row added p)
  add_row-Collected seen row added p h past room = record {
    counted = omega (arith, length-append seen (ok row ∷ []), h.counted);
    collected =
        map-append ok p.rows (row ∷ [])
        ∙ ap (λ t. t ++ ok row ∷ []) h.collected
        ∙ sym (drop-append l.start seen (ok row ∷ []) (omega (arith, h.counted)));
    row_count = omega (arith, length-append p.rows (row ∷ []), h.row_count);
    in_limit = omega arith;
  }

module _ {Row : Type 0} (encoded : Row → ℕ) (l : Limits) where
  offer-Sound :
      (seen rest : List (Result ReadError Row)) (p : Progress Row) (row : Row)
      → Collected l seen p
      → l.start ≤ p.position
      → p.returned < l.max_rows
      → Ensures (FlowSound l (seen ++ ok row ∷ []) (seen ++ ok row ∷ rest)) (offer encoded l p row)
  unfolding offer
  offer-Sound seen rest p row h past room = elim (Bool-cases (overflows encoded l row p)) [
    | inl e ↦ elim (Bool-cases (ltb 0 p.returned)) [
      | inl r ↦
          rw (e, r) (break-Broken l seen (ok row ∷ rest) p h past (inr (ltb→lt 0 p.returned r)))
      | inr r ↦ rw (e, r, Ensures) tt
    ]
    | inr e ↦ rw e (add_row-Collected l seen row (added_bytes encoded l row p) p h past room)
  ]

  pub page_row-Sound :
      (seen rest : List (Result ReadError Row)) (p : Progress Row) (cell : Result ReadError Row)
      → Collected l seen p
      → Ensures (FlowSound l (seen ++ cell ∷ []) (seen ++ cell ∷ rest)) (page_row encoded l p cell)
  unfolding page_row
  page_row-Sound seen rest p cell h = elim (Bool-cases (ltb p.position l.start)) [
    | inl a ↦
        let before = ltb→lt p.position l.start a in
        rw a (skip-Collected l seen (cell ∷ []) 1 p h refl (omega arith))
    | inr a ↦
        let past : l.start ≤ p.position = ground arith in
        elim (Bool-cases (leb l.max_rows p.returned)) [
          | inl b ↦
              let full = leb→le l.max_rows p.returned b in
              rw (a, b) (break-Broken l seen (cell ∷ rest) p h past (grind arith))
          | inr b ↦ rw (a, b) (finish cell past (ground arith))
        ]
  ]
    where
      finish :
          (cell : Result ReadError Row)
          → l.start ≤ p.position
          → p.returned < l.max_rows
          → Ensures
              (FlowSound l (seen ++ cell ∷ []) (seen ++ cell ∷ rest))
              (cell >>= offer encoded l p)
      finish (err e) past room = tt
      finish (ok row) past room = offer-Sound seen rest p row h past room
