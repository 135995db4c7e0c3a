-- ===== src/Pool/Upstream.antt =====
-- src/pool/mod.rs, `UpstreamState`. The `Arc`s to upstream states are addresses in a heap, since
-- pools, request handlers, the health checker and the admin API all mutate the same states through
-- them; one update of a heap cell is what happens under one lock of the mutex, or one atomic
-- operation.
use soroban_gate.Common.{
  ℕ, ◌*◌, ◌/◌, ◌≡◌, ◌≢◌, Bool, true, false, ◌&&◌, Option, String, arith, if◌then◌else◌, ◌==◌,
}
use soroban_gate.Common.Words.{ℤ, i64_of, inc_u64, dec_u64}
use soroban_gate.Pool.CircuitBreaker
use soroban_gate.Pool.CircuitBreaker.{CircuitBreaker, CircuitBreakerState}

pub data HealthStatus : Type 0 where
  healthy unhealthy : HealthStatus

pub record UpstreamMutableState : Type 0 where
  pub health : HealthStatus
  pub circuit_breaker : CircuitBreaker
  pub consecutive_successes : ℕ
  pub consecutive_failures : ℕ

-- `connection_count` is the 64-bit word of the `AtomicI64`.
pub record UpstreamState : Type 0 where
  pub pool_name : String
  pub url : String
  pub weight : ℕ
  pub max_connections : Option ℕ
  pub mutable_ : UpstreamMutableState
  pub connection_count : ℕ
  pub latency_ns : ℕ

abbrev pub seconds : ℕ → ℕ
seconds s = s * 1_000_000_000

unfoldable pub new : String → String → ℕ → Option ℕ → ℕ → UpstreamState
unfolding CircuitBreaker.new
new pool_name url weight max_connections now = record {
  pool_name = pool_name;
  url = url;
  weight = weight;
  max_connections = max_connections;
  mutable_ = record {
    health = unhealthy;
    circuit_breaker = CircuitBreaker.new 5 (seconds 30) now;
    consecutive_successes = 0;
    consecutive_failures = 0;
  };
  connection_count = 0;
  latency_ns = 0;
}

abbrev pub is_healthy : HealthStatus → Bool
is_healthy healthy = true
is_healthy unhealthy = false

unfoldable pub is_available : UpstreamState → Bool
unfolding CircuitBreaker.is_available
is_available u =
    is_healthy u.mutable_.health && CircuitBreaker.is_available u.mutable_.circuit_breaker

unfoldable pub health_status : UpstreamState → HealthStatus
health_status u = u.mutable_.health

unfoldable pub circuit_breaker_state : UpstreamState → CircuitBreakerState
unfolding CircuitBreaker.state_of
circuit_breaker_state u = CircuitBreaker.state_of u.mutable_.circuit_breaker

unfoldable pub increment_connection_count : UpstreamState → UpstreamState
increment_connection_count u = record u { connection_count = inc_u64 u.connection_count }

unfoldable pub decrement_connection_count : UpstreamState → UpstreamState
decrement_connection_count u = record u { connection_count = dec_u64 u.connection_count }

unfoldable pub active_connections : UpstreamState → ℤ
active_connections u = i64_of u.connection_count

unfoldable pub latency_us : UpstreamState → ℕ
latency_us u = u.latency_ns / 1000

-- `Arc<UpstreamState>`.
abbrev pub Arc : Type 0
Arc = ℕ

abbrev pub Heap : Type 0
Heap = Arc → UpstreamState

abbrev pub update : Heap → Arc → (UpstreamState → UpstreamState) → Heap
update h a f b = if a == b then f (h b) else h b

pub update_self :
    (h : Heap) (a : Arc) (f : UpstreamState → UpstreamState) → update h a f a ≡ f (h a)
update_self h a f = ground arith

pub update_ne :
    (h : Heap) (a b : Arc) (f : UpstreamState → UpstreamState) → a ≢ b → update h a f b ≡ h b
update_ne h a b f n = ground arith
