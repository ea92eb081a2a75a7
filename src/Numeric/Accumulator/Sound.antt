-- ===== src/Numeric/Accumulator/Sound.antt =====
-- numeric.rs: the map and the state of a DISTINCT sum agree, with what the window holds.
pub mod Different
pub mod Window
use rowtrail.Base.{
  +ℤ-ℤ_cancel, +ℤ_assoc, +ℤ_comm, Bool-cases, Ensures, Ensures-weaken, List, Option-cases, [], ap,
  arith, checked_add, checked_sub, eqb_ℤ, eqb_ℤ_sound, if◌then◌else◌, inl, inr, length, ltb, ltb→lt,
  none, pos, refl, some, sum, sym, ℕ, ℤ, ◌+ℤ◌, ◌+◌, ◌-ℤ◌, ◌-◌, ◌<◌, ◌∙◌, ◌∷◌, ◌≡◌,
}
use rowtrail.Numeric.Accumulator.{
  Counts, count_of, insert_distinct, keys_of, or_zero, put, remove, retract_distinct,
}
use rowtrail.Numeric.{Range, State, add, checked_add_u64, subtract}

-- How often a value stands in a window.
pub occurrences : ℤ → List ℤ → ℕ
occurrences v [] = 0
occurrences v (w ∷ ws) = if eqb_ℤ w v then occurrences v ws + 1 else occurrences v ws

-- One entry for each key, and no entry that counts nothing.
abbrev IsMap : Counts → Type 0
IsMap [] = Unit
IsMap ((v, n) ∷ counts) = (count_of v counts ≡ none) × (0 < n) × IsMap counts

count_of-put :
    (v w : ℤ) (n : ℕ) (counts : Counts)
    → count_of w (put v n counts) ≡ (if eqb_ℤ v w then some n else count_of w counts)
unfolding count_of put
count_of-put v w n [] = refl
count_of-put v w n ((u, m) ∷ counts) =
    ground (arith, count_of-put v w n counts, eqb_ℤ_sound u v, eqb_ℤ_sound u w, eqb_ℤ_sound v w)

put-IsMap : (v : ℤ) (n : ℕ) (counts : Counts) → 0 < n → IsMap counts → IsMap (put v n counts)
unfolding put
put-IsMap v n [] h m = (unfold count_of in refl, h, tt)
put-IsMap v n ((u, k) ∷ counts) h m =
    ground (arith, put-IsMap v n counts h, count_of-put v u n counts, eqb_ℤ_sound u v)

count_of-remove :
    (v w : ℤ) (counts : Counts)
    → IsMap counts
    → count_of w (remove v counts) ≡ (if eqb_ℤ v w then none else count_of w counts)
unfolding count_of remove
count_of-remove v w [] m = ground arith
count_of-remove v w ((u, k) ∷ counts) m =
    ground (arith, count_of-remove v w counts, eqb_ℤ_sound u v, eqb_ℤ_sound u w, eqb_ℤ_sound v w)

remove-IsMap : (v : ℤ) (counts : Counts) → IsMap counts → IsMap (remove v counts)
unfolding remove
remove-IsMap v [] m = tt
remove-IsMap v ((u, k) ∷ counts) m =
    ground (arith, remove-IsMap v counts, count_of-remove v u counts, eqb_ℤ_sound u v)

sum_keys-put_new :
    (v : ℤ) (n : ℕ) (counts : Counts)
    → count_of v counts ≡ none
    → (sum (keys_of (put v n counts)) ≡ sum (keys_of counts) +ℤ v)
      × (length (keys_of (put v n counts)) ≡ length (keys_of counts) + 1)
unfolding count_of put keys_of sum
sum_keys-put_new v n [] h = (+ℤ_comm v (pos 0), omega arith)
sum_keys-put_new v n ((u, k) ∷ counts) h =
    ground (arith, sum_keys-put_new v n counts, +ℤ_assoc u (sum (keys_of counts)) v)

keys-put_old :
    (v : ℤ) (n m : ℕ) (counts : Counts)
    → count_of v counts ≡ some m
    → keys_of (put v n counts) ≡ keys_of counts
unfolding count_of put keys_of
keys-put_old v n m [] h = cc
keys-put_old v n m ((u, k) ∷ counts) h = ground (arith, keys-put_old v n m counts)

sum_keys-remove :
    (v : ℤ) (n : ℕ) (counts : Counts)
    → count_of v counts ≡ some n
    → (sum (keys_of counts) ≡ sum (keys_of (remove v counts)) +ℤ v)
      × (length (keys_of counts) ≡ length (keys_of (remove v counts)) + 1)
unfolding count_of remove keys_of sum
sum_keys-remove v n [] h = cc
sum_keys-remove v n ((u, k) ∷ counts) h = ground (
  arith,
  sum_keys-remove v n counts,
  eqb_ℤ_sound u v,
  +ℤ_assoc u (sum (keys_of (remove v counts))) v,
  +ℤ_comm (sum (keys_of counts)) v,
)

-- The map counts what the window holds.
abbrev Counted : Counts → List ℤ → Type 0
Counted counts window = (v : ℤ) → or_zero (count_of v counts) ≡ occurrences v window

record Holds (s : State) (counts : Counts) (window : List ℤ) : Type 0 where
  is_map : IsMap counts
  counted : Counted counts window
  sum_exact : s.sum ≡ sum (keys_of counts)
  count_exact : s.count ≡ length (keys_of counts)

-- An entry counts at least one.
count_of_pos : (v : ℤ) (n : ℕ) (counts : Counts) → IsMap counts → count_of v counts ≡ some n → 0 < n
unfolding count_of
count_of_pos v n [] m h = cc
count_of_pos v n ((u, k) ∷ counts) m h = ground (arith, count_of_pos v n counts)

-- One value fewer, by a smaller count or by no entry.
module _ (v : ℤ) (counts : Counts) (window rest : List ℤ) (c : Counted counts window)
    (leaves : (w : ℤ) → occurrences w window ≡ occurrences w (v ∷ rest)) where
  put_fewer : (n : ℕ) → count_of v counts ≡ some n → Counted (put v (n - 1) counts) rest
  unfolding occurrences or_zero
  put_fewer n e w =
      ground (arith, count_of-put v w (n - 1) counts, c w, c v, leaves w, leaves v, eqb_ℤ_sound v w)

  remove_last : IsMap counts → count_of v counts ≡ some 1 → Counted (remove v counts) rest
  unfolding occurrences or_zero
  remove_last m e w =
      ground (arith, count_of-remove v w counts m, c w, c v, leaves w, leaves v, eqb_ℤ_sound v w)

module _ (r : Range) (v : ℤ) (s : State) (counts : Counts) where
  insert_new :
      count_of v counts ≡ none
      → Ensures
          (λ p. (p.0.sum ≡ s.sum +ℤ v) × (p.0.count ≡ s.count + 1) × (p.1 ≡ put v 1 counts))
          (insert_distinct r v (s, counts))
  unfolding insert_distinct or_zero add checked_add checked_add_u64
  insert_new e = rw (e, Ensures) (ground arith)

  insert_old :
      (n : ℕ)
      → count_of v counts ≡ some n
      → 0 < n
      → Ensures (λ p. (p.0 ≡ s) × (p.1 ≡ put v (n + 1) counts)) (insert_distinct r v (s, counts))
  unfolding insert_distinct or_zero checked_add_u64
  insert_old n e h = rw (e, Ensures) (ground arith)

  retract_last :
      count_of v counts ≡ some 1
      → Ensures
          (λ p. (p.0.sum ≡ s.sum -ℤ v) × (p.0.count + 1 ≡ s.count) × (p.1 ≡ remove v counts))
          (retract_distinct r v (s, counts))
  unfolding retract_distinct subtract checked_sub
  retract_last e = rw (e, Ensures) (ground arith)

  retract_more :
      (n : ℕ)
      → count_of v counts ≡ some n
      → 1 < n
      → Ensures (λ p. (p.0 ≡ s) × (p.1 ≡ put v (n - 1) counts)) (retract_distinct r v (s, counts))
  unfolding retract_distinct
  retract_more n e h = rw (e, Ensures) (ground arith)

  module _ (window : List ℤ) (h : Holds s counts window) where
    put-Counted : (n : ℕ) → n ≡ occurrences v window + 1 → Counted (put v n counts) (v ∷ window)
    unfolding occurrences or_zero
    put-Counted n e w =
        ground (arith, count_of-put v w n counts, h.counted w, h.counted v, eqb_ℤ_sound v w)

    enter_new :
        count_of v counts ≡ none
        → (p : State × Counts)
        → (p.0.sum ≡ s.sum +ℤ v) × (p.0.count ≡ s.count + 1) × (p.1 ≡ put v 1 counts)
        → Holds p.0 p.1 (v ∷ window)
    enter_new e p (x, y, z) =
        let (k, l) = sum_keys-put_new v 1 counts e in
        rw z (record {
          is_map = put-IsMap v 1 counts (omega arith) h.is_map;
          counted = put-Counted 1 (unfold or_zero in ground (arith, h.counted v));
          sum_exact = x ∙ ap (λ t. t +ℤ v) h.sum_exact ∙ sym k;
          count_exact = omega (arith, h.count_exact);
        })

    enter_old :
        (n : ℕ)
        → count_of v counts ≡ some n
        → (p : State × Counts) → (p.0 ≡ s) × (p.1 ≡ put v (n + 1) counts)
        → Holds p.0 p.1 (v ∷ window)
    enter_old n e p (x, z) =
        let k = keys-put_old v (n + 1) n counts e in
        rw (x, z)
          (record {
            is_map = put-IsMap v (n + 1) counts (omega arith) h.is_map;
            counted = put-Counted (n + 1) (unfold or_zero in ground (arith, h.counted v));
            sum_exact = h.sum_exact ∙ sym (ap sum k);
            count_exact = h.count_exact ∙ sym (ap (length {A = ℤ}) k);
          })

    -- A value that enters the window keeps the agreement.
    insert-Holds : Ensures (λ p. Holds p.0 p.1 (v ∷ window)) (insert_distinct r v (s, counts))
    insert-Holds = elim (Option-cases (count_of v counts)) [
      | inl e ↦ Ensures-weaken _ _ (insert_distinct r v (s, counts)) (enter_new e) (insert_new e)
      | inr (n, e) ↦
          Ensures-weaken _ _ (insert_distinct r v (s, counts)) (enter_old n e)
            (insert_old n e (count_of_pos v n counts h.is_map e))
    ]

    module _ (rest : List ℤ)
        (leaves : (w : ℤ) → occurrences w window ≡ occurrences w (v ∷ rest)) where
      leave_more :
          (n : ℕ)
          → 1 < n
          → count_of v counts ≡ some n
          → (p : State × Counts) → (p.0 ≡ s) × (p.1 ≡ put v (n - 1) counts)
          → Holds p.0 p.1 rest
      leave_more n g e p (x, z) =
          let k = keys-put_old v (n - 1) n counts e in
          rw (x, z)
            (record {
              is_map = put-IsMap v (n - 1) counts (omega arith) h.is_map;
              counted = put_fewer v counts window rest h.counted leaves n e;
              sum_exact = h.sum_exact ∙ sym (ap sum k);
              count_exact = h.count_exact ∙ sym (ap (length {A = ℤ}) k);
            })

      leave_last :
          count_of v counts ≡ some 1
          → (p : State × Counts)
          → (p.0.sum ≡ s.sum -ℤ v) × (p.0.count + 1 ≡ s.count) × (p.1 ≡ remove v counts)
          → Holds p.0 p.1 rest
      leave_last e p (x, y, z) =
          let (k, l) = sum_keys-remove v 1 counts e in
          rw z (record {
            is_map = remove-IsMap v counts h.is_map;
            counted = remove_last v counts window rest h.counted leaves h.is_map e;
            sum_exact = x ∙ ap (λ t. t -ℤ v) (h.sum_exact ∙ k) ∙ +ℤ-ℤ_cancel _ v;
            count_exact = omega (arith, h.count_exact);
          })

      leave_counted :
          (n : ℕ)
          → count_of v counts ≡ some n
          → Ensures (λ p. Holds p.0 p.1 rest) (retract_distinct r v (s, counts))
      leave_counted n e = elim (Bool-cases (ltb 1 n)) [
        | inl g ↦
            Ensures-weaken _ _ (retract_distinct r v (s, counts)) (leave_more n (ltb→lt 1 n g) e)
              (retract_more n e (ltb→lt 1 n g))
        | inr g ↦
            let one : n ≡ 1 = ground (arith, count_of_pos v n counts h.is_map e) in
            let e1 : count_of v counts ≡ some 1 = e ∙ ap (λ k. some k) one in
            Ensures-weaken _ _ (retract_distinct r v (s, counts)) (leave_last e1) (retract_last e1)
      ]

      -- A value that leaves the window keeps the agreement.
      retract-Holds : Ensures (λ p. Holds p.0 p.1 rest) (retract_distinct r v (s, counts))
      retract-Holds = elim (Option-cases (count_of v counts)) [
        | inl e ↦ unfold retract_distinct in rw (e, Ensures) tt
        | inr (n, e) ↦ leave_counted n e
      ]
