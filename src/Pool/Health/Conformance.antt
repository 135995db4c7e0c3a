-- ===== src/Pool/Health/Conformance.antt =====
-- src/pool/health.rs, the tests at its end, run on the model. All happens at time 0.
use soroban_gate.Common.{
  ℕ, zero, suc, ◌≡◌, refl, Bool, true, false, not, ◌&&◌, List, [], ◌∷◌, none, String, ◌==◌, leb,
  str_eq, length, if◌then◌else◌,
}
use soroban_gate.Common.Words.{inc_u32}
use soroban_gate.Config.{LoadBalancingAlgorithm}
use soroban_gate.Pool.CircuitBreaker
use soroban_gate.Pool.CircuitBreaker.{record_failure, available_in}
use soroban_gate.Pool.Upstream.{
  UpstreamState, UpstreamMutableState, Arc, Heap, HealthStatus, healthy, unhealthy, is_healthy,
  is_available,
}
use soroban_gate.Pool.Upstream
use soroban_gate.Pool.Pools.{UpstreamPool, healthy_upstreams}

abbrev fresh : String → UpstreamState
fresh url = Upstream.new "test" url 1 none 0

-- `state.consecutive_successes += 1; state.consecutive_failures = 0`, and the like.
abbrev succeeded : UpstreamMutableState → UpstreamMutableState
succeeded m = record m {
  consecutive_successes = inc_u32 m.consecutive_successes;
  consecutive_failures = 0;
}

abbrev failed : UpstreamMutableState → UpstreamMutableState
failed m = record m {
  consecutive_failures = inc_u32 m.consecutive_failures;
  consecutive_successes = 0;
}

unfoldable test_health_status_transitions : Bool
test_health_status_transitions =
    let start = (fresh "http://localhost:9999").mutable_ in
    let once = succeeded start in
    let counted = succeeded once in
    let up =
      if leb 2 counted.consecutive_successes
      then record counted { health = healthy }
      else counted in
    let down_once = failed up in
    let counted_down = failed (failed down_once) in
    let down =
      if leb 3 counted_down.consecutive_failures
      then record counted_down { health = unhealthy }
      else counted_down in
    not (is_healthy start.health)
    && start.consecutive_successes == 0
    && start.consecutive_failures == 0
    && once.consecutive_successes == 1
    && not (is_healthy once.health)
    && is_healthy up.health
    && is_healthy down_once.health
    && not (is_healthy down.health)

unfoldable test_initial_health_is_unhealthy : Bool
test_initial_health_is_unhealthy = not (is_healthy (fresh "http://localhost:9999").mutable_.health)

abbrev with_health : HealthStatus → UpstreamState → UpstreamState
with_health health u = record u { mutable_ = record u.mutable_ { health = health } }

abbrev two_upstreams : Heap
two_upstreams zero = with_health healthy (fresh "http://healthy:8080")
two_upstreams (suc a) = fresh "http://unhealthy:8080"

abbrev test_pool : List Arc → UpstreamPool
test_pool upstreams = record {
  name = "test";
  upstreams = upstreams;
  algorithm = LoadBalancingAlgorithm.wrr;
  wrr_counter = 0;
}

abbrev only_url : Heap → List Arc → String → Bool
only_url heap (a ∷ []) url = str_eq (heap a).url url
only_url heap _ url = false

-- There is one healthy upstream, and it has the address.
unfoldable test_healthy_upstream_filtering : Bool
test_healthy_upstream_filtering =
    only_url two_upstreams (healthy_upstreams two_upstreams (test_pool (0 ∷ 1 ∷ [])))
      "http://healthy:8080"

abbrev fail_times : ℕ → UpstreamState → UpstreamState
fail_times zero u = u
fail_times (suc n) u =
    let v = fail_times n u in
    record v {
      mutable_ = record v.mutable_ {
        circuit_breaker = record_failure v.mutable_.circuit_breaker 0;
      };
    }

unfoldable test_circuit_breaker_blocks_healthy_upstream : Bool
test_circuit_breaker_blocks_healthy_upstream =
    let u = fail_times 5 (with_health healthy (fresh "http://healthy-but-cb-open:8080")) in
    not (CircuitBreaker.is_available u.mutable_.circuit_breaker)
    && not (is_available u)
    && length (healthy_upstreams (λ a. u) (test_pool (0 ∷ []))) == 0

test_health_status_transitions_passes : test_health_status_transitions ≡ true
unfolding test_health_status_transitions Upstream.new CircuitBreaker.new CircuitBreaker.is_available
    available_in record_failure is_available healthy_upstreams
test_health_status_transitions_passes = refl

test_initial_health_is_unhealthy_passes : test_initial_health_is_unhealthy ≡ true
unfolding test_initial_health_is_unhealthy Upstream.new CircuitBreaker.new
    CircuitBreaker.is_available available_in record_failure is_available healthy_upstreams
test_initial_health_is_unhealthy_passes = refl

test_healthy_upstream_filtering_passes : test_healthy_upstream_filtering ≡ true
unfolding test_healthy_upstream_filtering Upstream.new CircuitBreaker.new
    CircuitBreaker.is_available available_in record_failure is_available healthy_upstreams
test_healthy_upstream_filtering_passes = refl

test_circuit_breaker_blocks_healthy_upstream_passes :
    test_circuit_breaker_blocks_healthy_upstream ≡ true
unfolding test_circuit_breaker_blocks_healthy_upstream Upstream.new CircuitBreaker.new
    CircuitBreaker.is_available available_in record_failure is_available healthy_upstreams
test_circuit_breaker_blocks_healthy_upstream_passes = refl
