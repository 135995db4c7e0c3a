-- ===== src/Pool/CircuitBreaker.antt =====
-- src/pool/circuit_breaker.rs: the circuit breaker of one upstream. Instants and durations count
-- nanoseconds; each call of `Instant::now` is the argument `now`.
pub mod Machine
mod Conformance
mod Tests
use soroban_gate.Common.{ℕ, ◌-◌, Bool, true, false, ◌&&◌, if◌then◌else◌, leb}
use soroban_gate.Common.Words.{inc_u32}

pub data CircuitBreakerState : Type 0 where
  closed open_ half_open : CircuitBreakerState

pub record CircuitBreaker : Type 0 where
  pub state : CircuitBreakerState
  pub failure_count : ℕ
  pub failure_threshold : ℕ
  pub cooldown : ℕ
  pub last_state_change : ℕ

unfoldable pub new : ℕ → ℕ → ℕ → CircuitBreaker
new failure_threshold cooldown now = record {
  state = closed;
  failure_count = 0;
  failure_threshold = failure_threshold;
  cooldown = cooldown;
  last_state_change = now;
}

-- The accessor `state`; the other two only serve the file's own tests.
unfoldable pub state_of : CircuitBreaker → CircuitBreakerState
state_of cb = cb.state

unfoldable pub available_in : CircuitBreakerState → Bool
available_in closed = true
available_in open_ = false
available_in half_open = true

unfoldable pub is_available : CircuitBreaker → Bool
unfolding available_in
is_available cb = available_in cb.state

abbrev pub is_open : CircuitBreakerState → Bool
is_open open_ = true
is_open _ = false

-- `elapsed` is the truncated difference: it saturates at zero.
unfoldable pub try_half_open : CircuitBreaker → ℕ → CircuitBreaker
try_half_open cb now =
    if is_open cb.state && leb cb.cooldown (now - cb.last_state_change)
    then record cb { state = half_open; last_state_change = now }
    else cb

unfoldable pub record_success : CircuitBreaker → ℕ → CircuitBreaker
record_success cb now = elim cb.state [
  | half_open ↦ record cb { state = closed; failure_count = 0; last_state_change = now }
  | closed ↦ record cb { failure_count = 0 }
  | open_ ↦ cb
]

unfoldable pub record_failure : CircuitBreaker → ℕ → CircuitBreaker
record_failure cb now = elim cb.state [
  | closed ↦
      let count = inc_u32 cb.failure_count in
      if leb cb.failure_threshold count
      then record cb { failure_count = count; state = open_; last_state_change = now }
      else record cb { failure_count = count }
  | half_open ↦ record cb { state = open_; last_state_change = now }
  | open_ ↦ record cb { last_state_change = now }
]
