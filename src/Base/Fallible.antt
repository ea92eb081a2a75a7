-- ===== src/Base/Fallible.antt =====
-- Fallible code: `Result` with `do` blocks; `ensure!` is `guard`.
use mathlib.Core.Path.{◌≡◌, ap, refl}
use mathlib.Core.Bool.{Bool, true, false}
use mathlib.Core.Option.{Option, none, some}
use mathlib.Core.Logic.{◌⊎◌, inl, inr}

pub data Result {ℓ κ} (Failure : Type ℓ) (Value : Type κ) : Type (ℓ ⊔ κ) where
  err : Failure → Result Failure Value
  ok : Value → Result Failure Value

abbrev pub guard {ℓ} : {Failure : Type ℓ} → Bool → Failure → Result Failure (Unit {0})
guard true failure = ok tt
guard false failure = err failure

infixl 5 ◌>>=◌ ◌>>◌
-- The operator `?`, with what follows it.
abbrev pub ◌>>=◌ {ℓ κ ρ} :
    {Failure : Type ℓ} {Value : Type κ} {Next : Type ρ}
    → Result Failure Value
    → (Value → Result Failure Next)
    → Result Failure Next
err failure >>= next = err failure
ok value >>= next = next value

abbrev pub ◌>>◌ {ℓ κ ρ} :
    {Failure : Type ℓ} {Value : Type κ} {Next : Type ρ}
    → Result Failure Value
    → Result Failure Next
    → Result Failure Next
first >> second = first >>= λ ignored. second

-- `Option::ok_or`
abbrev pub ok_or {ℓ κ} :
    {Failure : Type ℓ} {Value : Type κ} → Option Value → Failure → Result Failure Value
ok_or (some value) failure = ok value
ok_or none failure = err failure

pub err-ne-ok {ℓ κ} : {E : Type ℓ} {A : Type κ} {e : E} {a : A} → ¬ (err e ≡ ok a)
err-ne-ok h = cc

module _ {ℓ κ} {E : Type ℓ} {A : Type κ} where
  -- If the code returns, its result satisfies `P`.
  abbrev pub Ensures : (A → Type 0) → Result E A → Type 0
  Ensures P (ok a) = P a
  Ensures P (err e) = Unit

  -- The code returns, and its result satisfies `P`.
  abbrev pub Returns : (A → Type 0) → Result E A → Type 0
  Returns P (ok a) = P a
  Returns P (err e) = ⊥

  pub Ensures-weaken :
      (P Q : A → Type 0) (m : Result E A) → ((a : A) → P a → Q a) → Ensures P m → Ensures Q m
  Ensures-weaken P Q (ok a) k h = k a h
  Ensures-weaken P Q (err e) k h = tt

  pub Returns-weaken :
      (P Q : A → Type 0) (m : Result E A) → ((a : A) → P a → Q a) → Returns P m → Returns Q m
  Returns-weaken P Q (ok a) k h = k a h
  Returns-weaken P Q (err e) k h = absurd h

  pub Ensures-ok : (P : A → Type 0) (m : Result E A) {a : A} → Ensures P m → m ≡ ok a → P a
  Ensures-ok P m h e = rw e at h

  pub Returns-value : (P : A → Type 0) (m : Result E A) → Returns P m → (a : A) × (m ≡ ok a) × P a
  Returns-value P (ok a) h = (a, refl, h)
  Returns-value P (err e) h = absurd h

module _ {ℓ κ ν} {E : Type ℓ} {A : Type κ} {B : Type ν} where
  pub Ensures-bind :
      (P : A → Type 0) (Q : B → Type 0) (m : Result E A) (f : A → Result E B)
      → Ensures P m
      → ((a : A) → P a → Ensures Q (f a))
      → Ensures Q (m >>= f)
  Ensures-bind P Q (ok a) f h k = k a h
  Ensures-bind P Q (err e) f h k = tt

  pub Returns-bind :
      (P : A → Type 0) (Q : B → Type 0) (m : Result E A) (f : A → Result E B)
      → Returns P m
      → ((a : A) → P a → Returns Q (f a))
      → Returns Q (m >>= f)
  Returns-bind P Q (ok a) f h k = k a h
  Returns-bind P Q (err e) f h k = absurd h

module _ {ℓ κ} {E : Type ℓ} {A : Type κ} where
  pub Ensures-of_Returns :
      (P Q : A → Type 0) (m : Result E A) → ((a : A) → P a → Q a) → Returns P m → Ensures Q m
  Ensures-of_Returns P Q (ok a) k h = k a h
  Ensures-of_Returns P Q (err e) k h = tt

  pub Result-cases : (m : Result E A) → ((e : E) × (m ≡ err e)) ⊎ ((a : A) × (m ≡ ok a))
  Result-cases (ok a) = inr (a, refl)
  Result-cases (err e) = inl (e, refl)

  pub Ensures-any : (m : Result E A) → Ensures (λ a. Unit) m
  Ensures-any (ok a) = tt
  Ensures-any (err e) = tt

pub Ensures-guard {ℓ} : {E : Type ℓ} → (b : Bool) (e : E) → Ensures (λ u. b ≡ true) (guard b e)
Ensures-guard true e = refl
Ensures-guard false e = tt

module _ {ℓ} {E : Type ℓ} {A : Type 0} where
  pub Ensures-ok_or : (o : Option A) (e : E) → Ensures (λ a. o ≡ some a) (ok_or o e)
  Ensures-ok_or none e = tt
  Ensures-ok_or (some a) e = refl

module _ {ℓ κ} {E : Type ℓ} {A : Type κ} where
  -- A guard in front changes nothing of what is ensured.
  pub Ensures-guarded :
      (Q : A → Type 0) (b : Bool) (e : E) (m : Result E A)
      → Ensures Q m
      → Ensures Q (guard b e >> m)
  Ensures-guarded Q true e m h = h
  Ensures-guarded Q false e m h = tt

-- `Result::is_ok`
abbrev pub is_ok {ℓ κ} : {E : Type ℓ} {A : Type κ} → Result E A → Bool
is_ok (ok a) = true
is_ok (err e) = false

module _ {ℓ κ} {E : Type ℓ} {A : Type κ} where
  pub Returns-of_Ensures :
      (P Q : A → Type 0) (m : Result E A) → Ensures P m → Returns Q m → Returns P m
  Returns-of_Ensures P Q (ok a) h k = h
  Returns-of_Ensures P Q (err e) h k = k

module _ {E A : Type 0} where
  pub Ensures-value : (m : Result E A) → Ensures (λ a. m ≡ ok a) m
  Ensures-value (ok a) = refl
  Ensures-value (err e) = tt

module _ {ℓ κ} {E : Type ℓ} {A : Type κ} where
  value_or : A → Result E A → A
  value_or a (ok b) = b
  value_or a (err e) = a

  pub ok-injective : {a b : A} → ◌≡◌ {A = Result E A} (ok a) (ok b) → a ≡ b
  unfolding value_or
  ok-injective {a} h = ap (value_or a) h
