-- ===== src/Base/Rows.antt =====
-- A SQL table with a primary key, as an association list in row order.
use Prim.Native.Nat.{ℕ}
use mathlib.Core.Path.{◌≡◌, refl}
use mathlib.Core.Option.{Option, none, some}
use mathlib.Core.List.{List, [], ◌∷◌, ◌++◌}
use native.Mathlib.Omega.{arith}
use rowtrail.Base.Tests.{if◌then◌else◌, ◌==◌}

abbrev pub Table {ℓ} : Type ℓ → Type ℓ
Table V = List (ℕ × V)

abbrev pub map_option {ℓ κ} : {A : Type ℓ} {B : Type κ} → (A → B) → Option A → Option B
map_option f none = none
map_option f (some a) = some (f a)

module _ {ℓ} {V : Type ℓ} where
  -- SELECT … WHERE id=?
  unfoldable pub find : ℕ → Table V → Option V
  find k [] = none
  find k ((j, v) ∷ t) = if j == k then some v else find k t

  -- UPDATE … WHERE id=?
  unfoldable pub modify : ℕ → (V → V) → Table V → Table V
  modify k f [] = []
  modify k f ((j, v) ∷ t) = (j, if j == k then f v else v) ∷ modify k f t

  pub find-modify :
      (k j : ℕ) (f : V → V) (t : Table V)
      → find j (modify k f t) ≡ (if k == j then map_option f (find j t) else find j t)
  unfolding find modify
  find-modify k j f [] = ground arith
  find-modify k j f ((i, v) ∷ t) = ground (arith, find-modify k j f t)

  -- INSERT
  pub find-append :
      (j k : ℕ) (v : V) (t : Table V)
      → find j (t ++ (k, v) ∷ [])
        ≡ elim (find j t) [ some w ↦ some w | none ↦ if k == j then some v else none ]
  unfolding find
  find-append j k v [] = refl
  find-append j k v ((i, w) ∷ t) = ground (arith, find-append j k v t)

module _ {ℓ} {A : Type ℓ} where
  -- The value, if there is one, satisfies `P`.
  abbrev pub OptionAll : (A → Type 0) → Option A → Type 0
  OptionAll P none = Unit
  OptionAll P (some a) = P a

  -- There is a value, and it satisfies `P`.
  abbrev pub OptionAny : (A → Type 0) → Option A → Type 0
  OptionAny P none = ⊥
  OptionAny P (some a) = P a

  pub OptionAll-value : (P : A → Type 0) (o : Option A) {a : A} → OptionAll P o → o ≡ some a → P a
  OptionAll-value P o h e = rw e at h

  pub OptionAll-of : (P : A → Type 0) (o : Option A) → ((a : A) → o ≡ some a → P a) → OptionAll P o
  OptionAll-of P none h = tt
  OptionAll-of P (some a) h = h a refl

  pub OptionAny-value :
      (P : A → Type 0) (o : Option A) → OptionAny P o → (a : A) × (o ≡ some a) × P a
  OptionAny-value P none h = absurd h
  OptionAny-value P (some a) h = (a, refl, h)

  pub OptionAny-of : (P : A → Type 0) (o : Option A) {a : A} → o ≡ some a → P a → OptionAny P o
  OptionAny-of P o e h = rw e h

module _ {ℓ κ} {A : Type ℓ} {B : Type κ} where
  pub OptionAny-map_option :
      (P : A → Type 0) (Q : B → Type 0) (f : A → B) (o : Option A)
      → OptionAny P o
      → ((a : A) → P a → Q (f a))
      → OptionAny Q (map_option f o)
  OptionAny-map_option P Q f none h k = absurd h
  OptionAny-map_option P Q f (some a) h k = k a h

  pub OptionAll-map_option :
      (P : A → Type 0) (Q : B → Type 0) (f : A → B) (o : Option A)
      → OptionAll P o
      → ((a : A) → P a → Q (f a))
      → OptionAll Q (map_option f o)
  OptionAll-map_option P Q f none h k = tt
  OptionAll-map_option P Q f (some a) h k = k a h
