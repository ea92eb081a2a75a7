-- ===== src/Numeric/Accumulator/Sound/Different.antt =====
-- numeric.rs: what the state of a DISTINCT sum holds, in terms of the values of the window.
-- use mathlib.Core.Option.{*}
use rowtrail.Base.{
  Bool-cases, List, Option-cases, [], ap, arith, if◌then◌else◌, inl, inr, length, ltb, pos, refl,
  some, sum, sym, ℕ, ℤ, ◌+ℤ◌, ◌+◌, ◌-◌, ◌<◌, ◌==◌, ◌∙◌, ◌∷◌, ◌≡◌,
}
use rowtrail.Numeric.Accumulator.{Counts, count_of, keys_of, or_zero, put, remove}
use rowtrail.Numeric.Accumulator.Sound.{
  Counted, IsMap, keys-put_old, occurrences, put-IsMap, put_fewer, remove-IsMap, remove_last,
  sum_keys-remove,
}

-- The sum and the number of the values, each once.
unfoldable pub distinct_sum : List ℤ → ℤ
distinct_sum [] = pos 0
distinct_sum (v ∷ vs) = if occurrences v vs == 0 then distinct_sum vs +ℤ v else distinct_sum vs

unfoldable pub distinct_count : List ℤ → ℕ
distinct_count [] = 0
distinct_count (v ∷ vs) = if occurrences v vs == 0 then distinct_count vs + 1 else distinct_count vs

-- How a value that stands once, or more often, counts in the specification.
distinct-once :
    (v : ℤ) (vs : List ℤ)
    → occurrences v vs ≡ 0
    → (distinct_sum (v ∷ vs) ≡ distinct_sum vs +ℤ v)
      × (distinct_count (v ∷ vs) ≡ distinct_count vs + 1)
unfolding distinct_sum distinct_count
distinct-once v vs h = ground arith

distinct-again :
    (v : ℤ) (vs : List ℤ)
    → 0 < occurrences v vs
    → (distinct_sum (v ∷ vs) ≡ distinct_sum vs) × (distinct_count (v ∷ vs) ≡ distinct_count vs)
unfolding distinct_sum distinct_count
distinct-again v vs h = ground arith

-- The count of the value at the window's head.
head-Counted :
    (v : ℤ) (vs : List ℤ) (counts : Counts)
    → Counted counts (v ∷ vs)
    → or_zero (count_of v counts) ≡ occurrences v vs + 1
unfolding occurrences
head-Counted v vs counts c = ground (arith, c v)

-- What a DISTINCT state holds is the sum of the window's different values.
pub keys-distinct :
    (window : List ℤ) (counts : Counts)
    → IsMap counts
    → Counted counts window
    → (sum (keys_of counts) ≡ distinct_sum window)
      × (length (keys_of counts) ≡ distinct_count window)
keys-distinct [] [] m c = unfold keys_of sum distinct_sum distinct_count in (refl, refl)
keys-distinct [] ((v, n) ∷ counts) m c =
    absurd (unfold count_of or_zero occurrences in ground (arith, c v))
keys-distinct (v ∷ vs) counts m c = elim (Option-cases (count_of v counts)) [
  | inl e ↦ absurd (unfold or_zero in ground (arith, head-Counted v vs counts c))
  | inr (n, e) ↦
      let occurs : n ≡ occurrences v vs + 1 =
        unfold or_zero in ground (arith, head-Counted v vs counts c) in
      elim (Bool-cases (ltb 1 n)) [
        | inl g ↦
            let (x, y) =
              keys-distinct vs (put v (n - 1) counts) (put-IsMap v (n - 1) counts (ground arith) m)
                (put_fewer v counts (v ∷ vs) vs c (λ w. refl) n e) in
            let (x', y') = distinct-again v vs (ground arith) in
            let k = keys-put_old v (n - 1) n counts e in
            (sym (ap sum k) ∙ x ∙ sym x', sym (ap (length {A = ℤ}) k) ∙ y ∙ sym y')
        | inr g ↦
            let e1 : count_of v counts ≡ some 1 = e ∙ ap (λ j. some j) (ground arith) in
            let (x, y) =
              keys-distinct vs (remove v counts) (remove-IsMap v counts m)
                (remove_last v counts (v ∷ vs) vs c (λ w. refl) m e1) in
            let (x', y') = distinct-once v vs (ground arith) in
            let (k, l) = sum_keys-remove v 1 counts e1 in
            (k ∙ ap (λ t. t +ℤ v) x ∙ sym x', omega arith)
      ]
]
