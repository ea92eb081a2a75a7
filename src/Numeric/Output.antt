-- ===== src/Numeric/Output.antt =====
-- numeric.rs: what `State::add`, `State::subtract` and `Range::scalar` return.
use rowtrail.Base.{
  Bool, Ensures, Result, String, abs, ap, arith, checked_add, err, false, if◌then◌else◌, in_signed,
  leb, ltb, ltb_ℤ, neg_part, not, ok, pos, pos_part, refl, some, sym, true, ℕ, ℤ, ◌&&◌, ◌+ℤ◌, ◌+◌,
  ◌-ℤ◌, ◌-◌, ◌<◌, ◌==◌, ◌^◌, ◌||◌, ◌∙◌, ◌≡◌, ◌≤◌,
}
use rowtrail.Numeric.{
  DataType, Range, ScalarValue, State, SumError, add, cast, checked_add_u64, decimal128, decimal256,
  decimal32, decimal64, decimal_range, final_sum_range, int64, low_bits, new_range, null, numeric,
  scalar, scalar_value, to_i128, uint64, wrap_signed,
}
use native.Mathlib.Nat.{pow-le-pow_right}

-- What `add` adds to a state.
abbrev pub Adds : State → ℤ → ℕ → State → Type 0
Adds s v n t = (t.sum ≡ s.sum +ℤ v) × (t.count ≡ s.count + n)

-- A successful `add` is exact.
pub add-Adds : (r : Range) (s : State) (v : ℤ) (n : ℕ) → Ensures (Adds s v n) (add s v n r)
unfolding add checked_add checked_add_u64
add-Adds r s v n = ground arith

-- The declared type fits the width of its values: what arrow ensures of every data type.
abbrev pub IsDeclared : DataType → Type 0
IsDeclared int64 = Unit
IsDeclared uint64 = Unit
IsDeclared (decimal32 p s) = p ≤ 9
IsDeclared (decimal64 p s) = p ≤ 18
IsDeclared (decimal128 p s) = p ≤ 38
IsDeclared (decimal256 p s) = p ≤ 76
IsDeclared _ = ⊥

-- The values that a declared type can hold.
pub fits_output : DataType → ℤ → Bool
fits_output int64 v = leb (neg_part v) (2 ^ 63) && ltb (pos_part v) (2 ^ 63)
fits_output uint64 v = neg_part v == 0 && ltb (pos_part v) (2 ^ 64)
fits_output (decimal32 p s) v = ltb (abs v) (10 ^ p)
fits_output (decimal64 p s) v = ltb (abs v) (10 ^ p)
fits_output (decimal128 p s) v = ltb (abs v) (10 ^ p)
fits_output (decimal256 p s) v = ltb (abs v) (10 ^ p)
fits_output _ v = false

wrap31 : (v : ℤ) → abs v < 2 ^ 31 → wrap_signed 31 v ≡ v
unfolding wrap_signed
wrap31 v h = ground arith

wrap63 : (v : ℤ) → neg_part v ≤ 2 ^ 63 → pos_part v < 2 ^ 63 → wrap_signed 63 v ≡ v
unfolding wrap_signed
wrap63 v h k = ground arith

low64 : (v : ℤ) → neg_part v ≡ 0 → pos_part v < 2 ^ 64 → pos (low_bits (2 ^ 64) v) ≡ v
unfolding low_bits
low64 v h k = ground arith

i128_ok : (v : ℤ) → abs v < 2 ^ 127 → to_i128 v ≡ ok v
unfolding to_i128 in_signed
i128_ok v h = ground arith

p10 : {p k : ℕ} → p ≤ k → 10 ^ p ≤ 10 ^ k
p10 h = pow-le-pow_right (omega arith) h

-- What `scalar` should return: null without rows, the exact sum where the declared type holds it,
-- and otherwise the error that names the declared output range.
abbrev pub output_of : DataType → String → State → Result SumError ScalarValue
output_of dt name s =
    if s.count == 0
    then ok (null dt)
    else if fits_output dt s.sum
    then ok (scalar_value dt s.sum)
    else err (numeric dt name final_sum_range)

module _ (name : String) (s : State) where
  -- The two range comparisons agree with the values of the type, and the cast is exact there.
  scalar_of_bounds :
      (r : Range)
      → r.expression ≡ name
      → (ltb_ℤ s.sum r.min || ltb_ℤ r.max s.sum) ≡ not (fits_output r.dt s.sum)
      → (fits_output r.dt s.sum ≡ true → cast r.dt s.sum ≡ ok (scalar_value r.dt s.sum))
      → scalar r s ≡ output_of r.dt name s
  unfolding scalar
  scalar_of_bounds r e b c = ground (arith, c)

abbrev pub HasRange : DataType → String → Type 0
HasRange dt name =
    (r : Range) × (new_range dt name ≡ some r) × ((s : State) → scalar r s ≡ output_of dt name s)

p10_pos : (p : ℕ) → 0 < 10 ^ p
p10_pos p = omega (arith, p10 {p = 0} {k = p} (omega arith))

abbrev decimal_bounds : DataType → String → ℕ → Range
decimal_bounds dt name p = record {
  dt = dt;
  expression = name;
  min = pos 0 -ℤ pos (10 ^ p - 1);
  max = pos (10 ^ p - 1);
}

decimal_range_lem :
    (dt : DataType) (name : String) (p : ℕ)
    → p ≤ 76
    → decimal_range dt name p ≡ some (decimal_bounds dt name p)
unfolding decimal_range in_signed
decimal_range_lem dt name p h = ground (arith, p10 h)

decimal_compare :
    (p : ℕ) (v : ℤ)
    → (ltb_ℤ v (pos 0 -ℤ pos (10 ^ p - 1)) || ltb_ℤ (pos (10 ^ p - 1)) v)
      ≡ not (ltb (abs v) (10 ^ p))
unfolding ◌-ℤ◌
decimal_compare p v = ground (arith, p10_pos p)

-- On a value that the type holds, no cast truncates and no `unwrap` fails.
cast_exact :
    (dt : DataType) (v : ℤ)
    → IsDeclared dt
    → fits_output dt v ≡ true
    → cast dt v ≡ ok (scalar_value dt v)
unfolding cast fits_output
cast_exact int64 v d h = ground (arith, i128_ok v, wrap63 v)
cast_exact uint64 v d h = ground (arith, i128_ok v, low64 v)
cast_exact (decimal32 p c) v d h = ground (arith, i128_ok v, wrap31 v, p10 d)
cast_exact (decimal64 p c) v d h = ground (arith, i128_ok v, wrap63 v, p10 d)
cast_exact (decimal128 p c) v d h = ground (arith, i128_ok v, p10 d)
cast_exact (decimal256 p c) v d h = refl
cast_exact _ v d h = absurd d

module _ (dt : DataType) (name : String) (p : ℕ) (small : p ≤ 76) (declared : IsDeclared dt) where
  decimal_case :
      ((v : ℤ) → fits_output dt v ≡ ltb (abs v) (10 ^ p))
      → (r : Range) × (decimal_range dt name p ≡ some r)
        × ((s : State) → scalar r s ≡ output_of dt name s)
  decimal_case fits = (
    decimal_bounds dt name p,
    decimal_range_lem dt name p small,
    λ s.
        scalar_of_bounds name s (decimal_bounds dt name p) refl
          (decimal_compare p s.sum ∙ ap not (sym (fits s.sum))) (cast_exact dt s.sum declared),
  )

-- The range of a declared type exists, and with it `scalar` returns null for no rows, the exact
-- sum where the declared type holds it, and otherwise the range error.
pub scalar_correct : (dt : DataType) (name : String) → IsDeclared dt → HasRange dt name
unfolding new_range fits_output
scalar_correct int64 name d =
    (_, refl, λ s. scalar_of_bounds name s _ refl (ground arith) (cast_exact int64 s.sum d))
scalar_correct uint64 name d =
    (_, refl, λ s. scalar_of_bounds name s _ refl (ground arith) (cast_exact uint64 s.sum d))
scalar_correct (decimal32 p c) name d = decimal_case _ name p (omega arith) d (λ v. refl)
scalar_correct (decimal64 p c) name d = decimal_case _ name p (omega arith) d (λ v. refl)
scalar_correct (decimal128 p c) name d = decimal_case _ name p (omega arith) d (λ v. refl)
scalar_correct (decimal256 p c) name d = decimal_case _ name p d d (λ v. refl)
scalar_correct _ name d = absurd d
