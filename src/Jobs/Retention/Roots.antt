-- ===== src/Jobs/Retention/Roots.antt =====
-- storage.rs: the loop of garbage collection protects its roots.
use rowtrail.Base.{
  ==_iff, Bool-cases, List, [], ap, arith, false, if◌then◌else◌, inl, inr, length, length-append,
  map, refl, suc, sym, take, true, zero, ℕ, ◌++◌, ◌+◌, ◌<◌, ◌==◌, ◌||◌, ◌∙◌, ◌∷◌, ◌≡◌, ◌≤◌,
}
use rowtrail.Jobs.Retention.{contains, parents_of, protect, unprotected}

pub contains-append :
    (id : ℕ) (xs ys : List ℕ) → contains id (xs ++ ys) ≡ (contains id xs || contains id ys)
unfolding contains
contains-append id [] ys = refl
contains-append id (x ∷ xs) ys = ground (arith, contains-append id xs ys)

-- The rows of `deps` that the loop has not followed yet.
unfoldable pub unfollowed : List (ℕ × ℕ) → List ℕ → ℕ
unfollowed [] protected = 0
unfollowed ((c, p) ∷ deps) protected =
    (if contains c protected then 0 else 1) + unfollowed deps protected

pub unfollowed-parents :
    (id : ℕ) (deps : List (ℕ × ℕ)) (protected : List ℕ)
    → contains id protected ≡ false
    → length (parents_of id deps) + unfollowed deps (id ∷ protected) ≡ unfollowed deps protected
unfolding unfollowed parents_of contains
unfollowed-parents id [] protected h = refl
unfollowed-parents id ((c, p) ∷ deps) protected h =
    let rest = unfollowed-parents id deps protected h in
    elim (Bool-cases (c == id)) [
      | inl e ↦
          let same = (==_iff c id).0 e in
          let other = ap (λ k. contains k protected) same ∙ h in
          let back = (==_iff id c).1 (sym same) in ground (arith, rest, other, back, e)
      | inr e ↦ let back : (id == c) ≡ false = ground arith in ground (arith, rest, back)
    ]

-- Where an id is looked for, before and after the top of the stack is taken.
pub popped :
    (id i : ℕ) (pending protected : List ℕ)
    → contains i protected ≡ true
    → (contains id (i ∷ pending) || contains id protected) ≡ true
    → (contains id pending || contains id protected) ≡ true
unfolding contains
popped id i pending protected e h = elim (Bool-cases (i == id)) [
  | inl x ↦
      let y = ap (λ k. contains k protected) (sym ((==_iff i id).0 x)) ∙ e in ground (arith, y)
  | inr x ↦ ground arith
]

pub followed :
    (id i : ℕ) (parents pending protected : List ℕ)
    → (contains id (i ∷ pending) || contains id protected) ≡ true
    → (contains id (parents ++ pending) || contains id (i ∷ protected)) ≡ true
unfolding contains
followed id i parents pending protected h = ground (arith, contains-append id parents pending)

-- With enough fuel, whatever is pending or protected is protected in the end.
pub protect_all :
    (fuel : ℕ) (deps : List (ℕ × ℕ)) (pending protected : List ℕ) (id : ℕ)
    → length pending + unfollowed deps protected < fuel
    → (contains id pending || contains id protected) ≡ true
    → contains id (protect fuel deps pending protected) ≡ true
unfolding protect
protect_all zero deps pending protected id f h = absurd (omega arith)
protect_all (suc fuel) deps [] protected id f h = unfold contains in h
protect_all (suc fuel) deps (i ∷ pending) protected id f h =
    elim (Bool-cases (contains i protected)) [
      | inl e ↦
          rw (e, protect)
            (protect_all fuel deps pending protected id (omega arith)
              (popped id i pending protected e h))
      | inr e ↦
          let k = unfollowed-parents i deps protected e in
          let l = length-append (parents_of i deps) pending in
          rw (e, protect)
            (protect_all fuel deps (parents_of i deps ++ pending) (i ∷ protected) id (omega arith)
              (followed id i (parents_of i deps) pending protected h))
    ]

abbrev pub ids : List (ℕ × ℕ) → List ℕ
ids rows = map (λ row. row.0) rows

pub unprotected_lem :
    (id : ℕ) (protected : List ℕ) (rows : List (ℕ × ℕ))
    → contains id protected ≡ true
    → contains id (ids (unprotected protected rows)) ≡ false
unfolding contains unprotected
unprotected_lem id protected [] h = refl
unprotected_lem id protected ((i, bytes) ∷ rows) h =
    let rest = unprotected_lem id protected rows h in
    elim (Bool-cases (contains i protected)) [
      | inl e ↦ rw (e, unprotected) rest
      | inr e ↦
          let other : (i == id) ≡ false = elim (Bool-cases (i == id)) [
            | inl x ↦ let y = ap (λ k. contains k protected) ((==_iff i id).0 x) ∙ h in cc
            | inr x ↦ x
          ] in
          rw (e, unprotected) (rw other rest)
    ]

pub contains-take :
    (id n : ℕ) (rows : List (ℕ × ℕ))
    → contains id (ids rows) ≡ false
    → contains id (ids (take n rows)) ≡ false
unfolding contains
contains-take id zero rows h = refl
contains-take id (suc n) [] h = refl
contains-take id (suc n) (row ∷ rows) h = ground (arith, contains-take id n rows)

pub unfollowed_bound :
    (deps : List (ℕ × ℕ)) (protected : List ℕ) → unfollowed deps protected ≤ length deps
unfolding unfollowed
unfollowed_bound [] protected = omega arith
unfollowed_bound ((c, p) ∷ deps) protected = ground (arith, unfollowed_bound deps protected)
