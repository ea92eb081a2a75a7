-- ===== src/Aggregate/Average.antt =====
-- aggregate.rs: the average of `output`, which splits the sum into quotient and remainder so that no
-- product overflows before the average does.
use rowtrail.Base.{
  Bool-cases, Option, ap, arith, checked_add, false, if◌then◌else◌, in_signed, inl, inr, int_laws,
  leb, map_option, neg_part, negsuc, none, pos, pos_part, refl, some, sub_ℕ, suc, sum, true, ℕ, ℤ,
  ◌%◌, ◌*ℤ◌, ◌*◌, ◌+ℤ◌, ◌+◌, ◌-◌, ◌/◌, ◌<◌, ◌^◌, ◌∙◌, ◌≡◌, ◌≤◌,
}
use native.Mathlib.Nat.{div-le_self, mod-lt, mul-le-mul, div-add-mod, add-mul-div_left}

unfoldable pub checked_mul : ℕ → ℤ → ℤ → Option ℤ
unfolding in_signed
checked_mul k a b = if in_signed k (a *ℤ b) then some (a *ℤ b) else none

-- `/` and `%` of signed integers by a positive number: towards zero.
unfoldable pub quotient : ℤ → ℕ → ℤ
quotient a n = sub_ℕ (pos_part a / n) (neg_part a / n)

unfoldable pub remainder : ℤ → ℕ → ℤ
remainder a n = sub_ℕ (pos_part a % n) (neg_part a % n)

unfoldable pub and_then : Option ℤ → (ℤ → Option ℤ) → Option ℤ
and_then none f = none
and_then (some a) f = f a

-- `integer.and_then(|v| fraction.and_then(|f| v.checked_add(f)))`
unfoldable pub average : ℤ → ℕ → ℕ → Option ℤ
unfolding checked_mul quotient remainder and_then
average sum divisor factor =
    let integer = checked_mul 127 (quotient sum divisor) (pos factor) in
    let fraction =
      map_option (λ v. quotient v divisor) (checked_mul 127 (remainder sum divisor) (pos factor)) in
    and_then integer λ v. and_then fraction λ f. checked_add 127 v f

-- a * f / d, split.
pub split_quotient : (a d f : ℕ) → 0 < d → a * f / d ≡ a / d * f + a % d * f / d
split_quotient a d f h =
    let e : a * f ≡ a % d * f + d * (a / d * f) =
      omega (arith, ap (λ (t : ℕ). t * f) (div-add-mod a d)) in
    ap (λ (t : ℕ). t / d) e ∙ add-mul-div_left (a % d * f) (a / d * f) h ∙ omega arith

-- The average as one division: it is there when it fits into 128 bits.
unfoldable pub exact_average : ℤ → ℕ → ℕ → Option ℤ
unfolding in_signed quotient
exact_average sum divisor factor =
    let exact = quotient (sum *ℤ pos factor) divisor in
    if in_signed 127 exact then some exact else none

-- The remainder's part of the average does not overflow.
small_fraction : (a d f : ℕ) → 0 < d → d ≤ 2 ^ 64 → f ≤ 10 ^ 6 → a % d * f < 2 ^ 127
small_fraction a d f h k m =
    let product : a % d * f ≤ 2 ^ 64 * 10 ^ 6 =
      mul-le-mul {n₂ = 2 ^ 64} (let below = mod-lt a h in omega arith) m in
    omega arith

-- -n
abbrev minus : ℕ → ℤ
minus n = sub_ℕ 0 n

zero_div : (d : ℕ) → 0 < d → (0 / d ≡ 0) × (0 % d ≡ 0)
zero_div d h = (
  let small = div-le_self 0 d in omega arith,
  let small = div-add-mod 0 d in let q = div-le_self 0 d in omega arith,
)

-- The numbers of one sign, as what the operations do on them.
module _ (signed : ℕ → ℤ) (limit : ℕ) (room : 2 ^ 127 ≤ suc limit)
    (in_range : (n : ℕ) → in_signed 127 (signed n) ≡ leb n limit)
    (times : (m n : ℕ) → signed m *ℤ pos n ≡ signed (m * n))
    (plus : (m n : ℕ) → signed m +ℤ signed n ≡ signed (m + n))
    (divided : (m d : ℕ) → 0 < d → quotient (signed m) d ≡ signed (m / d))
    (reduced : (m d : ℕ) → 0 < d → remainder (signed m) d ≡ signed (m % d)) where
  average_signed :
      (a d f : ℕ)
      → 0 < d
      → d ≤ 2 ^ 64
      → f ≤ 10 ^ 6
      → average (signed a) d f ≡ exact_average (signed a) d f
  unfolding average exact_average checked_mul checked_add and_then
  average_signed a d f h k m =
      let x = a / d * f in
      let y = a % d * f / d in
      let fits : leb (a % d * f) limit ≡ true =
        (let small = small_fraction a d f h k m in ground arith) in
      rw
        (
          times a f,
          divided (a * f) d h,
          in_range (a * f / d),
          split_quotient a d f h,
          divided a d h,
          reduced a d h,
          times (a / d) f,
          times (a % d) f,
          in_range x,
          in_range (a % d * f),
          fits,
        )
        (elim (Bool-cases (leb x limit)) [
          | inl b ↦ rw (b, divided (a % d * f) d h, plus x y, in_range (x + y)) refl
          | inr b ↦ let out : leb (x + y) limit ≡ false = ground arith in rw (b, out) refl
        ])

checked_pos : (n : ℕ) → in_signed 127 (pos n) ≡ leb n (2 ^ 127 - 1)
unfolding in_signed
checked_pos n = ground arith

checked_minus : (n : ℕ) → in_signed 127 (minus n) ≡ leb n (2 ^ 127)
unfolding in_signed
checked_minus n = ground arith

times_minus : (m n : ℕ) → minus m *ℤ pos n ≡ minus (m * n)
unfolding ◌*ℤ◌
times_minus m n = ground arith

times_pos : (m n : ℕ) → pos m *ℤ pos n ≡ pos (m * n)
unfolding ◌*ℤ◌
times_pos m n = ground arith

plus_pos : (m n : ℕ) → pos m +ℤ pos n ≡ pos (m + n)
plus_pos m n = omega int_laws

plus_minus : (m n : ℕ) → minus m +ℤ minus n ≡ minus (m + n)
unfolding ◌+ℤ◌
plus_minus m n = ground arith

divided_pos : (m d : ℕ) → 0 < d → quotient (pos m) d ≡ pos (m / d)
unfolding quotient
divided_pos m d h = ground (arith, zero_div d h)

divided_minus : (m d : ℕ) → 0 < d → quotient (minus m) d ≡ minus (m / d)
unfolding quotient
divided_minus m d h = ground (arith, zero_div d h)

reduced_pos : (m d : ℕ) → 0 < d → remainder (pos m) d ≡ pos (m % d)
unfolding remainder
reduced_pos m d h = ground (arith, zero_div d h)

reduced_minus : (m d : ℕ) → 0 < d → remainder (minus m) d ≡ minus (m % d)
unfolding remainder
reduced_minus m d h = ground (arith, zero_div d h)

-- The split average of a count of a u64 is the sum, scaled by at most 10 ^ 6, divided once towards
-- zero, and it is refused exactly when that quotient does not fit into 128 bits.
pub average-exact_average :
    (sum : ℤ) (count factor : ℕ)
    → 0 < count
    → count ≤ 2 ^ 64
    → factor ≤ 10 ^ 6
    → average sum count factor ≡ exact_average sum count factor
average-exact_average (pos a) d f h k m =
    average_signed pos (2 ^ 127 - 1) (omega arith) checked_pos times_pos plus_pos divided_pos
      reduced_pos a d f h k m
average-exact_average (negsuc a) d f h k m =
    let e : minus (suc a) ≡ negsuc a = ground arith in
    rw (← e) (
      average_signed minus (2 ^ 127) (omega arith) checked_minus times_minus plus_minus
        divided_minus reduced_minus (suc a) d f h k m)
