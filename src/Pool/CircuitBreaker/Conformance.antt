-- ===== src/Pool/CircuitBreaker/Conformance.antt =====
-- src/pool/circuit_breaker.rs, the tests at its end, run on the model. The first call is at time 0;
-- a sleep moves the time on.
use soroban_gate.Common.{ℕ, ◌*◌, ◌≡◌, refl, Bool, true, false, not, ◌&&◌, ◌==◌}
use soroban_gate.Pool.CircuitBreaker
use soroban_gate.Pool.CircuitBreaker.{
  CircuitBreaker, CircuitBreakerState, closed, open_, half_open, is_available, available_in,
  try_half_open, record_success, record_failure,
}

abbrev secs : ℕ → ℕ
secs n = n * 1_000_000_000

abbrev millis : ℕ → ℕ
millis n = n * 1_000_000

abbrev same_closed : CircuitBreakerState → Bool
same_closed closed = true
same_closed _ = false

abbrev same_open : CircuitBreakerState → Bool
same_open open_ = true
same_open _ = false

abbrev same_half_open : CircuitBreakerState → Bool
same_half_open half_open = true
same_half_open _ = false

-- `assert_eq!(cb.state(), …)`.
abbrev is_in : CircuitBreaker → CircuitBreakerState → Bool
is_in cb closed = same_closed (CircuitBreaker.state_of cb)
is_in cb open_ = same_open (CircuitBreaker.state_of cb)
is_in cb half_open = same_half_open (CircuitBreaker.state_of cb)

unfoldable test_closed_accepts_requests : Bool
test_closed_accepts_requests =
    let cb = CircuitBreaker.new 3 (secs 30) 0 in is_available cb && is_in cb closed

unfoldable test_failure_threshold_opens_circuit : Bool
test_failure_threshold_opens_circuit =
    let cb = CircuitBreaker.new 3 (secs 30) 0 in
    let once = record_failure cb 0 in
    let twice = record_failure once 0 in
    let thrice = record_failure twice 0 in
    is_in cb closed
    && is_in once closed
    && once.failure_count == 1
    && is_in twice closed
    && twice.failure_count == 2
    && is_in thrice open_
    && not (is_available thrice)

unfoldable test_open_rejects_requests : Bool
test_open_rejects_requests =
    let cb = record_failure (CircuitBreaker.new 1 (secs 30) 0) 0 in
    is_in cb open_ && not (is_available cb)

unfoldable test_half_open_transition_after_cooldown : Bool
test_half_open_transition_after_cooldown =
    let cb = record_failure (CircuitBreaker.new 1 (millis 1) 0) 0 in
    let later = try_half_open cb (millis 2) in
    is_in cb open_ && is_in later half_open && is_available later

unfoldable test_half_open_no_transition_before_cooldown : Bool
test_half_open_no_transition_before_cooldown =
    let cb = record_failure (CircuitBreaker.new 1 (secs 30) 0) 0 in
    is_in cb open_ && is_in (try_half_open cb 0) open_

unfoldable test_half_open_success_closes : Bool
test_half_open_success_closes =
    let cb = try_half_open (record_failure (CircuitBreaker.new 1 (millis 1) 0) 0) (millis 2) in
    let after = record_success cb (millis 2) in
    is_in cb half_open && is_in after closed && is_available after && after.failure_count == 0

unfoldable test_half_open_failure_reopens : Bool
test_half_open_failure_reopens =
    let cb = try_half_open (record_failure (CircuitBreaker.new 1 (millis 1) 0) 0) (millis 2) in
    let after = record_failure cb (millis 2) in
    is_in cb half_open && is_in after open_ && not (is_available after)

unfoldable test_success_in_closed_resets_failure_count : Bool
test_success_in_closed_resets_failure_count =
    let cb = record_failure (record_failure (CircuitBreaker.new 3 (secs 30) 0) 0) 0 in
    let after = record_success cb 0 in
    cb.failure_count == 2 && after.failure_count == 0 && is_in after closed

unfoldable test_record_failure_in_open_resets_timer : Bool
test_record_failure_in_open_resets_timer =
    let cb = record_failure (CircuitBreaker.new 1 (millis 10) 0) 0 in
    let again = record_failure cb (millis 5) in
    is_in cb open_ && is_in (try_half_open again (millis 10)) open_

test_closed_accepts_requests_passes : test_closed_accepts_requests ≡ true
unfolding test_closed_accepts_requests is_available available_in try_half_open record_success
    record_failure CircuitBreaker.new CircuitBreaker.state_of
test_closed_accepts_requests_passes = refl

test_failure_threshold_opens_circuit_passes : test_failure_threshold_opens_circuit ≡ true
unfolding test_failure_threshold_opens_circuit is_available available_in try_half_open
    record_success record_failure CircuitBreaker.new CircuitBreaker.state_of
test_failure_threshold_opens_circuit_passes = refl

test_open_rejects_requests_passes : test_open_rejects_requests ≡ true
unfolding test_open_rejects_requests is_available available_in try_half_open record_success
    record_failure CircuitBreaker.new CircuitBreaker.state_of
test_open_rejects_requests_passes = refl

test_half_open_transition_after_cooldown_passes : test_half_open_transition_after_cooldown ≡ true
unfolding test_half_open_transition_after_cooldown is_available available_in try_half_open
    record_success record_failure CircuitBreaker.new CircuitBreaker.state_of
test_half_open_transition_after_cooldown_passes = refl

test_half_open_no_transition_before_cooldown_passes :
    test_half_open_no_transition_before_cooldown ≡ true
unfolding test_half_open_no_transition_before_cooldown is_available available_in try_half_open
    record_success record_failure CircuitBreaker.new CircuitBreaker.state_of
test_half_open_no_transition_before_cooldown_passes = refl

test_half_open_success_closes_passes : test_half_open_success_closes ≡ true
unfolding test_half_open_success_closes is_available available_in try_half_open record_success
    record_failure CircuitBreaker.new CircuitBreaker.state_of
test_half_open_success_closes_passes = refl

test_half_open_failure_reopens_passes : test_half_open_failure_reopens ≡ true
unfolding test_half_open_failure_reopens is_available available_in try_half_open record_success
    record_failure CircuitBreaker.new CircuitBreaker.state_of
test_half_open_failure_reopens_passes = refl

test_success_in_closed_resets_failure_count_passes :
    test_success_in_closed_resets_failure_count ≡ true
unfolding test_success_in_closed_resets_failure_count is_available available_in try_half_open
    record_success record_failure CircuitBreaker.new CircuitBreaker.state_of
test_success_in_closed_resets_failure_count_passes = refl

test_record_failure_in_open_resets_timer_passes : test_record_failure_in_open_resets_timer ≡ true
unfolding test_record_failure_in_open_resets_timer is_available available_in try_half_open
    record_success record_failure CircuitBreaker.new CircuitBreaker.state_of
test_record_failure_in_open_resets_timer_passes = refl
