-- ===== src/RateLimit/Tests.antt =====
-- The theorems on src/rate_limit/ at concrete sequences of calls.
use soroban_gate.Common.{ℕ, ◌+◌, ◌-◌, ◌*◌, ◌≤◌, ◌≡◌, List, [], ◌∷◌, arith, String}
use soroban_gate.RateLimit.TokenBucket.{token, new}
use soroban_gate.RateLimit.TokenBucket.Refill.{billion, slack}
use soroban_gate.RateLimit.TokenBucket.Bounds.{
  called, Call, InOrder, Uniform, admitted, admitted-le,
}
use soroban_gate.RateLimit.{RateLimiterDispatch, memory}
use soroban_gate.RateLimit.Trait.{dispatch_limiter, only, verdicts, verdicts-isolated}

abbrev call_at : String → ℕ → Call
call_at key now = record { key = key; requests_per_second = 2; burst = 1; now = now }

abbrev calls : List Call
calls = call_at "tier:pro" 0 ∷ call_at "ip:1.2.3.4" 100 ∷ call_at "tier:pro" 600_000_000 ∷ []

calls-InOrder : InOrder 0 1_000_000_000 calls
calls-InOrder = ground arith

calls-Uniform : Uniform "tier:pro" 2 1 calls
calls-Uniform = ground arith

admitted-le_example :
    (billion * (admitted "tier:pro" new calls * token)
      ≤ billion * (1 * token)
        + (1_000_000_000 - 0) * 2 * token
        + called "tier:pro" calls * (billion * slack))
    × (admitted "tier:pro" new calls ≤ called "tier:pro" calls * 1)
admitted-le_example =
    admitted-le "tier:pro" 2 1 0 1_000_000_000 calls (omega arith) (omega arith) calls-InOrder
      calls-Uniform

-- The bucket of one address has been emptied by now.
abbrev used : RateLimiterDispatch
used = memory (record { buckets = ("ip:1.2.3.4", record { tokens = 0; last_refill = 7 }) ∷ [] })

verdicts-isolated_example :
    verdicts dispatch_limiter "tier:pro" used calls
    ≡ verdicts dispatch_limiter "tier:pro" used (only "tier:pro" calls)
verdicts-isolated_example = verdicts-isolated used "tier:pro" calls
