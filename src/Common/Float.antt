-- ===== src/Common/Float.antt =====
-- The `f64` of the rate limiter. A number is held as a multiple of 2^-82: all numbers that the
-- limiter meets are zero or come from at least a billionth, which lies above 2^-30, and have a
-- significand of 53 bits, so that none of them has a finer place.
use native.Mathlib.Nat.{
  mul-le-mul_right, mul-le-mul_left, add-mul, mul-add, div-mul-le_self, mul-div-le, one-mul,
  mul_assoc, mul_comm, mul_left_comm, div-add-mod,
}
use soroban_gate.Common.{
  ℕ, zero, suc, ◌+◌, ◌*◌, ◌/◌, ◌%◌, ◌≤◌, ◌≡◌, ◌∙◌, sym, if◌then◌else◌, ltb, Bool-cases, inl, inr,
  arith,
}

-- 1.0, which is 2^82.
abbrev pub one : ℕ
one = 4_835_703_278_458_516_698_824_704

-- 2^52 and 2^53.
abbrev pub half_range : ℕ
half_range = 4_503_599_627_370_496

-- The last place of a significand, by doubling: numbers below 2^53 of it have no finer one.
unfoldable pub ulp_from : ℕ → ℕ → ℕ → ℕ
ulp_from zero u x = u
ulp_from (suc fuel) u x =
    let coarser = ulp_from fuel (2 * u) x in if ltb x (2 * half_range * u) then u else coarser

-- 128 doublings reach beyond 2^64 seconds times 2^32 tokens.
unfoldable pub ulp : ℕ → ℕ
unfolding ulp_from
ulp x = ulp_from 128 1 x

-- The nearest whole number, and of two the even one.
unfoldable pub nearest : ℕ → ℕ → ℕ
nearest n d =
    let q = n / d in
    let twice = 2 * (n % d) in if ltb twice d then q else if ltb d twice then q + 1 else q + q % 2

-- The number that `f64` arithmetic has for the quotient.
unfoldable pub round : ℕ → ℕ → ℕ
unfolding ulp nearest
round n d = let u = ulp (n / d) in u * nearest n (d * u)

ulp_from-le :
    (fuel u x : ℕ)
    → half_range * u ≤ half_range + x
    → half_range * ulp_from fuel u x ≤ half_range + x
unfolding ulp_from
ulp_from-le zero u x h = h
ulp_from-le (suc fuel) u x h = elim (Bool-cases (ltb x (2 * half_range * u))) [
  | inl fine ↦ ground (arith, fine)
  | inr coarse ↦
      let rest = ulp_from-le fuel (2 * u) x (ground (arith, coarse)) in ground (arith, coarse, rest)
]

pub ulp-le : (x : ℕ) → half_range * ulp x ≤ half_range + x
unfolding ulp
ulp-le x = ulp_from-le 128 1 x (omega arith)

nearest-le : (n d : ℕ) → nearest n d * d ≤ n + d
unfolding nearest
nearest-le n d =
    let near : nearest n d ≤ n / d + 1 = ground arith in
    omega (arith, mul-le-mul_right d near, add-mul (n / d) 1 d, div-mul-le_self n d, one-mul d)

-- One rounding makes a number larger by no more than a part in 2^52 and one last place.
pub round-le : (n d : ℕ) → half_range * (d * round n d) ≤ half_range * n + n + half_range * d
unfolding round
round-le n d =
    let u = ulp (n / d) in
    let moved : d * (u * nearest n (d * u)) ≡ nearest n (d * u) * (d * u) =
      sym (mul_assoc d u (nearest n (d * u))) ∙ mul_comm (d * u) (nearest n (d * u)) in
    let scaled : d * (half_range * u) ≤ d * (half_range + n / d) =
      mul-le-mul_left d (ulp-le (n / d)) in
    omega (
      arith,
      moved,
      scaled,
      nearest-le n (d * u),
      mul_left_comm d half_range u,
      mul-add d half_range (n / d),
      mul-div-le n d,
      mul_comm d half_range,
    )

-- The seconds of a duration, as `as_secs_f64` computes them.
unfoldable pub as_secs : ℕ → ℕ
unfolding round
as_secs nanoseconds =
    round
      (round (nanoseconds / 1_000_000_000 * one) 1
        + round (nanoseconds % 1_000_000_000 * one) 1_000_000_000)
      1

pub as_secs-le :
    (ns : ℕ)
    → 1_125_899_906_842_624 * (1_000_000_000 * as_secs ns)
      ≤ 1_125_899_906_842_625 * (ns * one) + 4 * 1_125_899_906_842_624 * 1_000_000_000
unfolding as_secs
as_secs-le ns =
    let s = ns / 1_000_000_000 in
    let r = ns % 1_000_000_000 in
    let whole = round-le (s * one) 1 in
    let part = round-le (r * one) 1_000_000_000 in
    let total = round-le (round (s * one) 1 + round (r * one) 1_000_000_000) 1 in
    omega (arith, whole, part, total, div-add-mod ns 1_000_000_000)
