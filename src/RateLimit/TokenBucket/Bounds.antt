-- ===== src/RateLimit/TokenBucket/Bounds.antt =====
-- src/rate_limit/token_bucket.rs: how many requests the limiter lets through.
use native.Mathlib.Nat.{add-mul, le_of_eq}
use soroban_gate.Common.{
  ℕ, ◌+◌, ◌-◌, ◌*◌, ◌≤◌, ◌<◌, ◌≡◌, refl, ◌≢◌, ap, inl, inr, Bool, true, false, List, [], ◌∷◌,
  Option, none, some, String, arith, All, if◌then◌else◌, leb, str_eq, str_eq_iff, str_eq_refl,
  Bool-cases, ◌&&◌, ◌⊎◌, subst, sym,
}
use soroban_gate.Common.HashMap
use soroban_gate.Common.Words.{u32_mod}
use soroban_gate.Common.Outcome.{Result, ok, err}
use soroban_gate.RateLimit.TokenBucket.{
  Bucket, TokenBucketRateLimiter, RateLimited, token, new, bucket_or, refilled, check_rate,
}
use soroban_gate.RateLimit.TokenBucket.Refill.{billion, slack, refilled-burst, refilled-le}

pub record Call : Type 0 where
  pub key : String
  pub requests_per_second : ℕ
  pub burst : ℕ
  pub now : ℕ

abbrev pub is_ok : Result (Unit {0}) RateLimited → Bool
is_ok (ok _) = true
is_ok (err _) = false

abbrev verdict_on :
    TokenBucketRateLimiter → Call → TokenBucketRateLimiter × Result (Unit {0}) RateLimited
verdict_on limiter c = check_rate limiter c.key c.requests_per_second c.burst c.now

-- How many calls for the key are let through in a sequence of calls for any keys.
unfoldable pub admitted : String → TokenBucketRateLimiter → List Call → ℕ
admitted key limiter [] = 0
admitted key limiter (c ∷ cs) =
    let (limiter', verdict) = verdict_on limiter c in
    (if str_eq c.key key && is_ok verdict then 1 else 0) + admitted key limiter' cs

-- The times of the calls do not fall, and lie between two bounds.
abbrev pub InOrder : ℕ → ℕ → List Call → Type 0
InOrder start end [] = start ≤ end
InOrder start end (c ∷ cs) = (start ≤ c.now) × InOrder c.now end cs

-- The calls for the key all carry the same rate and burst.
abbrev pub Uniform : String → ℕ → ℕ → List Call → Type 0
Uniform key rps burst = All λ c. (c.key ≢ key) ⊎ ((c.requests_per_second ≡ rps) × (c.burst ≡ burst))

-- A call for one key leaves the bucket of every other key as it is.
pub check_rate_other :
    (limiter : TokenBucketRateLimiter) (key other : String) (rps burst now : ℕ)
    → key ≢ other
    → HashMap.get other (check_rate limiter key rps burst now).0.buckets
      ≡ HashMap.get other limiter.buckets
unfolding check_rate
check_rate_other limiter key other rps burst now h =
    let b = bucket_or (HashMap.get key limiter.buckets) burst now in
    let tokens = refilled b rps burst now in
    ground (
      arith,
      str_eq_iff key other,
      HashMap.get-insert key other (record { tokens = tokens; last_refill = now }) limiter.buckets,
      HashMap.get-insert key other (record { tokens = tokens - token; last_refill = now })
          limiter.buckets,
    )

pub check_rate_own :
    (limiter : TokenBucketRateLimiter) (key : String) (rps burst now : ℕ) (b : Bucket)
    → bucket_or (HashMap.get key limiter.buckets) burst now ≡ b
    → (b' : Bucket) × (HashMap.get key (check_rate limiter key rps burst now).0.buckets ≡ some b')
      × (b'.last_refill ≡ now)
      × (b'.tokens + (if is_ok (check_rate limiter key rps burst now).1 then token else 0)
          ≡ refilled b rps burst now)
unfolding check_rate
check_rate_own limiter key rps burst now b e =
    let tokens = refilled b rps burst now in
    elim (Bool-cases (leb token tokens)) [
      | inl enough ↦ (
        record { tokens = tokens - token; last_refill = now },
        ground (
          arith,
          e,
          str_eq_refl key,
          HashMap.get-insert key key (record { tokens = tokens - token; last_refill = now })
              limiter.buckets,
        ),
        refl,
        ground (arith, e),
      )
      | inr short ↦ (
        record { tokens = tokens; last_refill = now },
        ground (
          arith,
          e,
          str_eq_refl key,
          HashMap.get-insert key key (record { tokens = tokens; last_refill = now })
              limiter.buckets,
        ),
        refl,
        ground (arith, e),
      )
    ]

InOrder-le : (start end : ℕ) (cs : List Call) → InOrder start end cs → start ≤ end
InOrder-le start end [] o = o
InOrder-le start end (c ∷ cs) o = omega (arith, InOrder-le c.now end cs o.1)

-- A refill over two adjacent times is the refill over both.
window : (a b c r : ℕ) → a ≤ b → b ≤ c → (b - a) * r + (c - b) * r ≡ (c - a) * r
window a b c r h k =
    let e : c - a ≡ (b - a) + (c - b) = omega arith in
    omega (arith, ap (λ (t : ℕ). t * r) e, add-mul (b - a) (c - b) r)

-- How many calls of a sequence are for the key.
abbrev pub called : String → List Call → ℕ
called key [] = 0
called key (c ∷ cs) = (if str_eq c.key key then 1 else 0) + called key cs

spend :
    (verdict : Result (Unit {0}) RateLimited) (rest left tokens refill : ℕ)
    → left + (if is_ok verdict then token else 0) ≡ tokens
    → billion * (rest * token) ≤ billion * left + refill
    → billion * (((if is_ok verdict then 1 else 0) + rest) * token) ≤ billion * tokens + refill
spend (ok u) rest left tokens refill e h = omega arith
spend (err e') rest left tokens refill e h = omega arith

-- A call that is let through has found a token, and a bucket holds no more than the burst.
ok-burst :
    (verdict : Result (Unit {0}) RateLimited) (left tokens burst : ℕ)
    → left + (if is_ok verdict then token else 0) ≡ tokens
    → tokens ≤ burst * token
    → (if is_ok verdict then 1 else 0) ≤ burst
ok-burst (ok u) left tokens burst e h = omega arith
ok-burst (err e') left tokens burst e h = omega arith

admitted-called :
    (key : String) (rps burst : ℕ) (limiter : TokenBucketRateLimiter) (cs : List Call)
    → Uniform key rps burst cs
    → admitted key limiter cs ≤ called key cs * burst
unfolding admitted
admitted-called key rps burst limiter [] u = omega arith
admitted-called key rps burst limiter (c ∷ cs) u = elim (Bool-cases (str_eq c.key key)) [
  | inl own ↦
      let k : c.key ≡ key = (str_eq_iff c.key key).0 own in
      let b : c.burst ≡ burst = ground arith in
      let at = bucket_or (HashMap.get c.key limiter.buckets) c.burst c.now in
      let (b', stored, refill, balance) =
        check_rate_own limiter c.key c.requests_per_second c.burst c.now at refl in
      let one_call =
        ok-burst (verdict_on limiter c).1 b'.tokens _ c.burst balance
          (refilled-burst at c.requests_per_second c.burst c.now) in
      let rest = admitted-called key rps burst (verdict_on limiter c).0 cs u.1 in
      ground (arith, own, b, one_call, rest, add-mul 1 (called key cs) burst)
  | inr other ↦
      let rest = admitted-called key rps burst (verdict_on limiter c).0 cs u.1 in
      ground (arith, other, rest)
]

module _ (key : String) (rps burst : ℕ) (small_rate : rps < u32_mod)
    (small_burst : burst < u32_mod) where
  -- What may still be let through by `end`, in billionths: what the bucket holds, and its refill.
  abbrev credit : ℕ → ℕ → Option Bucket → ℕ
  credit start end none = billion * (burst * token) + (end - start) * rps * token
  credit start end (some b) = billion * b.tokens + (end - b.last_refill) * rps * token

  abbrev IsPast : ℕ → Option Bucket → Type 0
  IsPast start none = Unit {0}
  IsPast start (some b) = b.last_refill ≤ start

  own-credit :
      (start end : ℕ) (o : Option Bucket) (now spent tokens extra : ℕ)
      → start ≤ now
      → now ≤ end
      → IsPast start o
      → tokens ≤ refilled (bucket_or o burst now) rps burst now
      → spent ≤ billion * tokens + (end - now) * rps * token + extra
      → spent ≤ credit start end o + billion * slack + extra
  own-credit start end none now spent tokens extra s e p t h =
      omega (
        arith,
        window start now end rps s e,
        refilled-burst (bucket_or none burst now) rps burst now,
      )
  own-credit start end (some b) now spent tokens extra s e p t h = omega (
    arith,
    window b.last_refill now end rps (omega arith) e,
    refilled-le b rps burst now small_rate small_burst,
  )

  credit-anti :
      (start now end : ℕ) (o : Option Bucket)
      → start ≤ now
      → now ≤ end
      → credit now end o ≤ credit start end o
  credit-anti start now end none s e = omega (arith, window start now end rps s e)
  credit-anti start now end (some b) s e = omega arith

  IsPast-mono : (start now : ℕ) (o : Option Bucket) → start ≤ now → IsPast start o → IsPast now o
  IsPast-mono start now none s p = tt
  IsPast-mono start now (some b) s p = omega arith

  -- One call for the key, and what is let through after it.
  own-step :
      (start end now rest extra : ℕ) (limiter : TokenBucketRateLimiter)
      → start ≤ now
      → now ≤ end
      → IsPast start (HashMap.get key limiter.buckets)
      → let after = check_rate limiter key rps burst now in
        (IsPast now (HashMap.get key after.0.buckets)
          → billion * (rest * token) ≤ credit now end (HashMap.get key after.0.buckets) + extra)
        → billion * (((if is_ok after.1 then 1 else 0) + rest) * token)
          ≤ credit start end (HashMap.get key limiter.buckets) + billion * slack + extra
  own-step start end now rest extra limiter s e p later =
      let o = HashMap.get key limiter.buckets in
      let (b', stored, refill, balance) =
        check_rate_own limiter key rps burst now (bucket_or o burst now) refl in
      let past = subst (IsPast now) (sym stored) (le_of_eq refill) in
      let left : billion * (rest * token)
          ≤ billion * b'.tokens + (end - b'.last_refill) * rps * token + extra =
        subst (λ q. billion * (rest * token) ≤ credit now end q + extra) stored (later past) in
      let left' : billion * (rest * token)
          ≤ billion * b'.tokens + ((end - now) * rps * token + extra) =
        subst
          (λ t. billion * (rest * token) ≤ billion * b'.tokens + ((end - t) * rps * token + extra))
          refill (omega (arith, left)) in
      let tokens = refilled (bucket_or o burst now) rps burst now in
      let spent =
        spend (check_rate limiter key rps burst now).1 rest b'.tokens tokens
          ((end - now) * rps * token + extra) balance left' in
      own-credit start end o now _ tokens extra s e p (omega arith) (omega (arith, spent))

  admitted-credit :
      (start end : ℕ) (limiter : TokenBucketRateLimiter) (cs : List Call)
      → InOrder start end cs
      → Uniform key rps burst cs
      → IsPast start (HashMap.get key limiter.buckets)
      → billion * (admitted key limiter cs * token)
        ≤ credit start end (HashMap.get key limiter.buckets) + called key cs * (billion * slack)
  unfolding admitted
  admitted-credit start end limiter [] o u p = omega arith
  admitted-credit start end limiter (c ∷ cs) o u p = elim (Bool-cases (str_eq c.key key)) [
    | inl own ↦
        let k : c.key ≡ key = (str_eq_iff c.key key).0 own in
        let r : c.requests_per_second ≡ rps = ground arith in
        let b : c.burst ≡ burst = ground arith in
        let same : verdict_on limiter c ≡ check_rate limiter key rps burst c.now = cc in
        let after = check_rate limiter key rps burst c.now in
        let bound =
          own-step start end c.now (admitted key after.0 cs) (called key cs * (billion * slack))
            limiter o.0 (InOrder-le c.now end cs o.1) p
            (λ past. admitted-credit c.now end after.0 cs o.1 u.1 past) in
        ground (arith, bound, own, same)
    | inr other ↦
        let same =
          check_rate_other limiter c.key key c.requests_per_second c.burst c.now
            (λ e. cc ((str_eq_iff c.key key).1 e)) in
        let ih =
          admitted-credit c.now end (verdict_on limiter c).0 cs o.1 u.1
            (subst (IsPast c.now) (sym same) (IsPast-mono start c.now _ o.0 p)) in
        let bound =
          credit-anti start c.now end (HashMap.get key limiter.buckets) o.0
            (InOrder-le c.now end cs o.1) in
        ground (arith, ih, same, bound)
  ]

-- Over any sequence of calls, for any keys, whose times do not fall and lie between `start` and
-- `end`, a new limiter lets through for one key no more than the burst and what the rate allows
-- over that time, and for each call for the key at most 1/131072 more, by the roundings to `f64`;
-- and no more than the burst times the calls for the key, so nothing at all where the burst is zero,
-- which the README calls no limit. The calls for that key must agree on the rate and the burst, both
-- 32-bit words.
pub admitted-le :
    (key : String) (rps burst start end : ℕ) (cs : List Call)
    → rps < u32_mod
    → burst < u32_mod
    → InOrder start end cs
    → Uniform key rps burst cs
    → (billion * (admitted key new cs * token)
        ≤ billion * (burst * token)
          + (end - start) * rps * token
          + called key cs * (billion * slack))
      × (admitted key new cs ≤ called key cs * burst)
unfolding new HashMap.get
admitted-le key rps burst start end cs small_rate small_burst o u = (
  admitted-credit key rps burst small_rate small_burst start end new cs o u tt,
  admitted-called key rps burst new cs u,
)
