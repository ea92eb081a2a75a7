-- ===== src/Base/Int.antt =====
-- Signed integers over the native numbers. A value of a signed machine type is such an integer
-- with a range test; sums and orders go through the two parts, which `omega` reads.
use Prim.Native.Nat.{ℕ, suc, ◌+◌, ◌-◌, ◌*◌, ◌≤◌, ◌^◌}
use mathlib.Core.Path.{◌≡◌, sym, ap}
use mathlib.Core.Bool.{Bool, true, ◌&&◌}
use mathlib.Core.List.{List, [], ◌∷◌, ◌++◌}
use mathlib.Core.Option.{Option, none, some}
use native.Mathlib.Omega.{arith}
use rowtrail.Base.Tests.{ltb, leb, ◌==◌, if◌then◌else◌}

-- `negsuc n` is -(n + 1).
pub data ℤ : Type 0 where
  pos : ℕ → ℤ
  negsuc : ℕ → ℤ

abbrev pub pos_part : ℤ → ℕ
pos_part (pos n) = n
pos_part (negsuc n) = 0

abbrev pub neg_part : ℤ → ℕ
neg_part (pos n) = 0
neg_part (negsuc n) = suc n

-- |a|
abbrev pub abs : ℤ → ℕ
abs a = pos_part a + neg_part a

-- a - b, as an integer.
abbrev pub sub_ℕ : ℕ → ℕ → ℤ
sub_ℕ a b = if leb b a then pos (a - b) else negsuc (b - a - 1)

infixl 65 ◌+ℤ◌ ◌-ℤ◌
infixl 70 ◌*ℤ◌
infix 50 ◌≤ℤ◌
unfoldable pub ◌+ℤ◌ : ℤ → ℤ → ℤ
a +ℤ b = sub_ℕ (pos_part a + pos_part b) (neg_part a + neg_part b)

unfoldable pub ◌-ℤ◌ : ℤ → ℤ → ℤ
a -ℤ b = sub_ℕ (pos_part a + neg_part b) (neg_part a + pos_part b)

unfoldable pub ◌*ℤ◌ : ℤ → ℤ → ℤ
a *ℤ b =
    sub_ℕ (pos_part a * pos_part b + neg_part a * neg_part b)
      (pos_part a * neg_part b + neg_part a * pos_part b)

abbrev pub ◌≤ℤ◌ : ℤ → ℤ → Type 0
a ≤ℤ b = pos_part a + neg_part b ≤ pos_part b + neg_part a

abbrev pub ltb_ℤ : ℤ → ℤ → Bool
ltb_ℤ a b = ltb (pos_part a + neg_part b) (pos_part b + neg_part a)

abbrev pub eqb_ℤ : ℤ → ℤ → Bool
eqb_ℤ a b = pos_part a + neg_part b == pos_part b + neg_part a

pub +ℤ_parts :
    (a b : ℤ)
    → pos_part (a +ℤ b) + neg_part a + neg_part b ≡ neg_part (a +ℤ b) + pos_part a + pos_part b
unfolding ◌+ℤ◌
+ℤ_parts a b = ground arith

pub -ℤ_parts :
    (a b : ℤ)
    → pos_part (a -ℤ b) + neg_part a + pos_part b ≡ neg_part (a -ℤ b) + pos_part a + neg_part b
unfolding ◌-ℤ◌
-ℤ_parts a b = ground arith

pub eq_of_parts : (a b : ℤ) → pos_part a + neg_part b ≡ pos_part b + neg_part a → a ≡ b
eq_of_parts a b h = ground arith

-- An equation of integers, for `omega`.
pub parts_of_eq : {a b : ℤ} → a ≡ b → (pos_part a ≡ pos_part b) × (neg_part a ≡ neg_part b)
parts_of_eq h = (ap pos_part h, ap neg_part h)

pub ruleset int_laws = (arith, +ℤ_parts, -ℤ_parts, eq_of_parts)

pub +ℤ_comm : (a b : ℤ) → a +ℤ b ≡ b +ℤ a
+ℤ_comm a b = omega int_laws

pub +ℤ_assoc : (a b c : ℤ) → a +ℤ b +ℤ c ≡ a +ℤ (b +ℤ c)
+ℤ_assoc a b c = omega int_laws

pub +ℤ_zero : (a : ℤ) → a +ℤ pos 0 ≡ a
+ℤ_zero a = omega int_laws

pub zero_+ℤ : (a : ℤ) → pos 0 +ℤ a ≡ a
zero_+ℤ a = omega int_laws

pub +ℤ-ℤ_cancel : (a b : ℤ) → a +ℤ b -ℤ b ≡ a
+ℤ-ℤ_cancel a b = omega int_laws

-- |a + b| ≤ |a| + |b|
pub abs-+ℤ-le : (a b : ℤ) → abs (a +ℤ b) ≤ abs a + abs b
unfolding ◌+ℤ◌
abs-+ℤ-le a b = ground arith

pub eqb_ℤ_sound : (a b : ℤ) → eqb_ℤ a b ≡ true → a ≡ b
eqb_ℤ_sound a b h = ground arith

pub eqb_ℤ_refl : (a : ℤ) → eqb_ℤ a a ≡ true
eqb_ℤ_refl a = ground arith

-- The sum of a list.
unfoldable pub sum : List ℤ → ℤ
sum [] = pos 0
sum (x ∷ xs) = x +ℤ sum xs

-- The sum of the absolute values.
unfoldable pub abs_sum : List ℤ → ℕ
abs_sum [] = 0
abs_sum (x ∷ xs) = abs x + abs_sum xs

pub sum-append : (xs ys : List ℤ) → sum (xs ++ ys) ≡ sum xs +ℤ sum ys
unfolding sum
sum-append [] ys = sym (zero_+ℤ (sum ys))
sum-append (x ∷ xs) ys = rw (sum-append xs ys) (sym (+ℤ_assoc x (sum xs) (sum ys)))

-- Two's complement of k + 1 bits: -2^k ≤ v < 2^k.
unfoldable pub in_signed : ℕ → ℤ → Bool
in_signed k v = leb (neg_part v) (2 ^ k) && ltb (pos_part v) (2 ^ k)

-- `iN::checked_add` and `iN::checked_sub` at N = k + 1.
unfoldable pub checked_add : ℕ → ℤ → ℤ → Option ℤ
unfolding in_signed
checked_add k a b = if in_signed k (a +ℤ b) then some (a +ℤ b) else none

unfoldable pub checked_sub : ℕ → ℤ → ℤ → Option ℤ
unfolding in_signed
checked_sub k a b = if in_signed k (a -ℤ b) then some (a -ℤ b) else none

-- What a checked operation returns is the exact result.
pub checked_add_exact : (k : ℕ) (a b c : ℤ) → checked_add k a b ≡ some c → c ≡ a +ℤ b
unfolding checked_add
checked_add_exact k a b c h = ground arith

pub checked_sub_exact : (k : ℕ) (a b c : ℤ) → checked_sub k a b ≡ some c → c ≡ a -ℤ b
unfolding checked_sub
checked_sub_exact k a b c h = ground arith
