-- ===== src/RateLimit/TokenBucket.antt =====
-- src/rate_limit/token_bucket.rs: one bucket of tokens for each key. The map stands behind a mutex,
-- so calls are one after another, and `now` is read under the lock.
pub mod Refill
pub mod Bounds
mod Conformance
use soroban_gate.Common.{
  ℕ, ◌+◌, ◌-◌, ◌*◌, min, List, [], ◌∷◌, Option, none, some, String, if◌then◌else◌, leb,
}
use soroban_gate.Common.Float.{one, round, as_secs}
use soroban_gate.Common.HashMap
use soroban_gate.Common.Outcome.{Result, ok, err}

pub data RateLimited : Type 0 where
  rate_limited : RateLimited

-- One token.
abbrev pub token : ℕ
token = one

-- The tokens are an `f64`, as Common/Float holds it.
pub record Bucket : Type 0 where
  pub tokens : ℕ
  pub last_refill : ℕ

pub record TokenBucketRateLimiter : Type 0 where
  pub buckets : List (String × Bucket)

unfoldable pub new : TokenBucketRateLimiter
new = record { buckets = [] }

-- `entry(key).or_insert(…)`.
abbrev pub bucket_or : Option Bucket → ℕ → ℕ → Bucket
bucket_or none burst now = record { tokens = burst * token; last_refill = now }
bucket_or (some b) burst now = b

-- The tokens after the refill, each operation rounded to `f64`; `duration_since` saturates at zero.
-- Rates and bursts are 32-bit words, which `f64` holds exactly, as it does a full bucket and one
-- token less of what was at least one.
unfoldable pub refilled : Bucket → ℕ → ℕ → ℕ → ℕ
unfolding as_secs round
refilled b requests_per_second burst now =
    let elapsed = as_secs (now - b.last_refill) in
    min (round (b.tokens + round (elapsed * requests_per_second) 1) 1) (burst * token)

unfoldable pub check_rate :
    TokenBucketRateLimiter
    → String
    → ℕ
    → ℕ
    → ℕ
    → TokenBucketRateLimiter × Result (Unit {0}) RateLimited
check_rate limiter key requests_per_second burst now =
    let b = bucket_or (HashMap.get key limiter.buckets) burst now in
    let tokens = refilled b requests_per_second burst now in
    let keep : ℕ → TokenBucketRateLimiter = λ t. record {
      buckets = HashMap.insert key (record { tokens = t; last_refill = now }) limiter.buckets;
    } in
    if leb token tokens then (keep (tokens - token), ok tt) else (keep tokens, err rate_limited)
