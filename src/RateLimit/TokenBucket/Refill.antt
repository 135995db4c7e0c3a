-- ===== src/RateLimit/TokenBucket/Refill.antt =====
-- src/rate_limit/token_bucket.rs: the refill of a bucket against its exact value.
use native.Mathlib.Nat.{mul-le-mul_right, add-mul, mul_assoc, mul_right_comm}
use soroban_gate.Common.{ℕ, ◌+◌, ◌-◌, ◌*◌, ◌≤◌, ◌<◌, ◌≡◌, ◌∙◌, ap, subst, arith}
use soroban_gate.Common.Words.{u32_mod}
use soroban_gate.Common.Float.{one, round, round-le, as_secs, as_secs-le}
use soroban_gate.RateLimit.TokenBucket.{Bucket, token, refilled}

-- A nanosecond's part of a second.
abbrev pub billion : ℕ
billion = 1_000_000_000

-- What the roundings of one refill may add: a token in 131072.
abbrev pub slack : ℕ
slack = 36_893_488_147_419_103_232

scaled :
    (a b c x y r : ℕ)
    → a * (billion * x) ≤ b * (y * one) + c
    → a * (billion * (x * r)) ≤ b * (y * r * one) + c * r
scaled a b c x y r h =
    let left : a * (billion * x) * r ≡ a * (billion * (x * r)) =
      mul_assoc a (billion * x) r ∙ ap (λ (t : ℕ). a * t) (mul_assoc billion x r) in
    let right : (b * (y * one) + c) * r ≡ b * (y * r * one) + c * r =
      add-mul (b * (y * one)) c r
      ∙ ap (λ (t : ℕ). t + c * r)
          (mul_assoc b (y * one) r ∙ ap (λ (t : ℕ). b * t) (mul_right_comm y one r)) in
    subst (λ t. t ≤ b * (y * r * one) + c * r) left
      (subst (λ t. a * (billion * x) * r ≤ t) right (mul-le-mul_right r h))

pub refilled-burst : (b : Bucket) (rps burst now : ℕ) → refilled b rps burst now ≤ burst * token
unfolding refilled
refilled-burst b rps burst now = omega arith

pub refilled-le :
    (b : Bucket) (rps burst now : ℕ)
    → rps < u32_mod
    → burst < u32_mod
    → billion * refilled b rps burst now
      ≤ billion * b.tokens + (now - b.last_refill) * rps * token + billion * slack
unfolding refilled
refilled-le b rps burst now small_rate small_burst =
    let ns = now - b.last_refill in
    let elapsed = as_secs ns in
    let product = round-le (elapsed * rps) 1 in
    let sum = round-le (b.tokens + round (elapsed * rps) 1) 1 in
    let seconds =
      scaled 1_125_899_906_842_624 1_125_899_906_842_625 (4 * 1_125_899_906_842_624 * billion)
        elapsed ns rps (as_secs-le ns) in
    omega (arith, product, sum, seconds)
