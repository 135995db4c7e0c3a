-- ===== src/RateLimit/TokenBucket/Conformance.antt =====
-- src/rate_limit/token_bucket.rs, the tests at its end, run on the model. The first call is at time
-- 0; a sleep moves the time on, and no time passes within a test otherwise.
use soroban_gate.Common.{ℕ, zero, suc, ◌*◌, ◌^◌, ◌≡◌, refl, Bool, true, false, not, ◌&&◌, String}
use soroban_gate.Common.HashMap
use soroban_gate.Common.Float.{as_secs, round, ulp, ulp_from, nearest}
use soroban_gate.Common.Outcome.{Result, ok, err}
use soroban_gate.RateLimit.TokenBucket
use soroban_gate.RateLimit.TokenBucket.{TokenBucketRateLimiter, RateLimited, check_rate, refilled}

abbrev millis : ℕ → ℕ
millis n = n * 1_000_000

abbrev is_ok : TokenBucketRateLimiter × Result (Unit {0}) RateLimited → Bool
is_ok (limiter, ok _) = true
is_ok (limiter, err e) = false

-- The calls of a loop: whether all were admitted, and the limiter afterwards.
abbrev calls : ℕ → TokenBucketRateLimiter → String → ℕ → ℕ → ℕ → Bool × TokenBucketRateLimiter
calls zero limiter key rps burst now = (true, limiter)
calls (suc n) limiter key rps burst now =
    let step = check_rate limiter key rps burst now in
    let (rest, after) = calls n step.0 key rps burst now in (is_ok step && rest, after)

unfoldable test_burst_allowed : Bool
test_burst_allowed =
    let (all_ok, limiter) = calls 10 TokenBucket.new "test_burst_allowed" 5 10 0 in
    all_ok && not (is_ok (check_rate limiter "test_burst_allowed" 5 10 0))

unfoldable test_different_keys_independent : Bool
test_different_keys_independent =
    let (all_ok, limiter) = calls 10 TokenBucket.new "key_a" 5 10 0 in
    let refused = check_rate limiter "key_a" 5 10 0 in
    not (is_ok refused) && is_ok (check_rate refused.0 "key_b" 5 10 0)

unfoldable test_refill_over_time : Bool
test_refill_over_time =
    let first = check_rate TokenBucket.new "test_refill" 10 1 0 in
    let second = check_rate first.0 "test_refill" 10 1 0 in
    is_ok first && not (is_ok second) && is_ok (check_rate second.0 "test_refill" 10 1 (millis 200))

unfoldable test_sustained_over_rate_rejected : Bool
test_sustained_over_rate_rejected =
    let first = check_rate TokenBucket.new "test_sustained" 1 1 0 in
    is_ok first && not (is_ok (check_rate first.0 "test_sustained" 1 1 0))

unfoldable test_ip_fallback_uses_separate_bucket : Bool
test_ip_fallback_uses_separate_bucket =
    let first = check_rate TokenBucket.new "ip:192.168.1.1" 5 10 0 in
    let (all_ok, limiter) = calls 9 first.0 "ip:192.168.1.1" 5 10 0 in
    let refused = check_rate limiter "ip:192.168.1.1" 5 10 0 in
    is_ok first && not (is_ok refused) && is_ok (check_rate refused.0 "ip:10.0.0.1" 5 10 0)

test_burst_allowed_passes : test_burst_allowed ≡ true
unfolding test_burst_allowed check_rate refilled as_secs round ulp ulp_from nearest TokenBucket.new
    HashMap.get HashMap.insert
test_burst_allowed_passes = refl

test_different_keys_independent_passes : test_different_keys_independent ≡ true
unfolding test_different_keys_independent check_rate refilled as_secs round ulp ulp_from nearest
    TokenBucket.new HashMap.get HashMap.insert
test_different_keys_independent_passes = refl

test_refill_over_time_passes : test_refill_over_time ≡ true
unfolding test_refill_over_time check_rate refilled as_secs round ulp ulp_from nearest
    TokenBucket.new HashMap.get HashMap.insert
test_refill_over_time_passes = refl

test_sustained_over_rate_rejected_passes : test_sustained_over_rate_rejected ≡ true
unfolding test_sustained_over_rate_rejected check_rate refilled as_secs round ulp ulp_from nearest
    TokenBucket.new HashMap.get HashMap.insert
test_sustained_over_rate_rejected_passes = refl

test_ip_fallback_uses_separate_bucket_passes : test_ip_fallback_uses_separate_bucket ≡ true
unfolding test_ip_fallback_uses_separate_bucket check_rate refilled as_secs round ulp ulp_from
    nearest TokenBucket.new HashMap.get HashMap.insert
test_ip_fallback_uses_separate_bucket_passes = refl

-- 0.1 has the significand 0x1999999999999a and the exponent -56.
tenth_of_a_second : as_secs (millis 100) ≡ 7_205_759_403_792_794 * 2 ^ 26
unfolding as_secs round ulp ulp_from nearest
tenth_of_a_second = refl

-- 0.1 * 3.0 is 0.30000000000000004.
three_tenths : round (as_secs (millis 100) * 3) 1 ≡ 5_404_319_552_844_596 * 2 ^ 28
unfolding as_secs round ulp ulp_from nearest
three_tenths = refl
