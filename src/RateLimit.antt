-- ===== src/RateLimit.antt =====
-- src/rate_limit/: the rate limiter behind its trait, and the token bucket that implements it, whose
-- tokens are an `f64`: each operation on them is rounded as the code's is.
pub mod TokenBucket
pub mod Trait
mod Tests
use soroban_gate.Common.{ℕ, String}
use soroban_gate.Common.Outcome.{Result}
use TokenBucket.{TokenBucketRateLimiter, RateLimited}
use TokenBucket

pub data RateLimiterDispatch : Type 0 where
  memory : TokenBucketRateLimiter → RateLimiterDispatch

-- `RateLimiter::check_rate` of the dispatch: the limiter afterwards, and the verdict.
unfoldable pub check_rate :
    RateLimiterDispatch → String → ℕ → ℕ → ℕ → RateLimiterDispatch × Result (Unit {0}) RateLimited
unfolding TokenBucket.check_rate
check_rate (memory limiter) key requests_per_second burst now =
    let (limiter', verdict) = TokenBucket.check_rate limiter key requests_per_second burst now in
    (memory limiter', verdict)
