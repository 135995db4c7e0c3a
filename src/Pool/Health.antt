-- ===== src/Pool/Health.antt =====
-- src/pool/health.rs: the background health checks. What the probe of an upstream comes to is an
-- argument, since the HTTP client sends it.
mod Tests
pub mod Hysteresis
pub mod Cycle
pub mod Recovery
mod Conformance
use soroban_gate.Common.{ℕ, ◌%◌, Bool, true, false, List, [], ◌∷◌, if◌then◌else◌, leb}
use soroban_gate.Common.Words.{inc_u32, u64_mod}
use soroban_gate.Config.{Config, HealthCheckConfig}
use soroban_gate.Pool.CircuitBreaker.{try_half_open}
use soroban_gate.Pool.Upstream.{
  UpstreamMutableState, UpstreamState, Arc, Heap, update, healthy, unhealthy,
}
use soroban_gate.Pool.Pools.{UpstreamPool}

-- `not_sent`: the request could not be built, and the check returns early. `responded` carries the
-- status code and the time that the probe took; `failed` is an error or a timeout.
pub data Probe : Type 0 where
  not_sent : Probe
  responded : ℕ → ℕ → Probe
  failed : Probe

-- `StatusCode::is_success` is a parameter.
module _ (is_success : ℕ → Bool) where
  -- The branch for a probe that succeeded.
  unfoldable pub check_passed : HealthCheckConfig → ℕ → UpstreamState → UpstreamState
  check_passed cfg elapsed u =
      let m = u.mutable_ in
      let successes = inc_u32 m.consecutive_successes in
      record u {
        mutable_ = record m {
          consecutive_successes = successes;
          consecutive_failures = 0;
          health = if leb cfg.healthy_threshold successes then healthy else m.health;
        };
        latency_ns = elapsed % u64_mod;
      }

  -- The branch for every other outcome.
  unfoldable pub check_failed : HealthCheckConfig → UpstreamState → UpstreamState
  check_failed cfg u =
      let m = u.mutable_ in
      let failures = inc_u32 m.consecutive_failures in
      record u {
        mutable_ = record m {
          consecutive_failures = failures;
          consecutive_successes = 0;
          health = if leb cfg.unhealthy_threshold failures then unhealthy else m.health;
        };
      }

  abbrev pub retry_breaker : ℕ → UpstreamState → UpstreamState
  retry_breaker now u = record u {
    mutable_ = record u.mutable_ { circuit_breaker = try_half_open u.mutable_.circuit_breaker now };
  }

  -- `now` is the time at which the probe's result is recorded.
  unfoldable pub check_upstream : HealthCheckConfig → Probe → ℕ → UpstreamState → UpstreamState
  unfolding check_passed check_failed
  check_upstream cfg not_sent now u = u
  check_upstream cfg (responded status elapsed) now u =
      if is_success status
      then check_passed cfg elapsed (retry_breaker now u)
      else check_failed cfg (retry_breaker now u)
  check_upstream cfg failed now u = check_failed cfg (retry_breaker now u)

  -- What the probe of each upstream comes to in one cycle, and when.
  abbrev pub Probes : Type 0
  Probes = Arc → Probe × ℕ

  unfoldable pub check_all : HealthCheckConfig → Probes → List Arc → Heap → Heap
  unfolding check_upstream
  check_all cfg probes [] heap = heap
  check_all cfg probes (a ∷ as_) heap =
      check_all cfg probes as_ (update heap a (check_upstream cfg (probes a).0 (probes a).1))

  -- The tasks of a cycle run concurrently; each updates its own upstream under its lock, so here
  -- they run pool by pool.
  unfoldable pub run_health_check_cycle :
      HealthCheckConfig → Probes → List UpstreamPool → Heap → Heap
  unfolding check_all
  run_health_check_cycle cfg probes [] heap = heap
  run_health_check_cycle cfg probes (p ∷ ps) heap =
      run_health_check_cycle cfg probes ps (check_all cfg probes p.upstreams heap)

abbrev pub mark_healthy : UpstreamState → UpstreamState
mark_healthy u = record u { mutable_ = record u.mutable_ { health = healthy } }

unfoldable pub mark_all : List Arc → Heap → Heap
mark_all [] heap = heap
mark_all (a ∷ as_) heap = mark_all as_ (update heap a mark_healthy)

-- `skip_initial`: all upstreams are marked healthy in place of a first cycle.
unfoldable pub mark_pools : List UpstreamPool → Heap → Heap
unfolding mark_all
mark_pools [] heap = heap
mark_pools (p ∷ ps) heap = mark_pools ps (mark_all p.upstreams heap)

-- The initial round, and then one cycle for each tick of the interval so far.
module _ (is_success : ℕ → Bool) where
  unfoldable pub run_cycles :
      HealthCheckConfig → List (Probes is_success) → List UpstreamPool → Heap → Heap
  unfolding run_health_check_cycle
  run_cycles cfg [] pools heap = heap
  run_cycles cfg (probes ∷ later) pools heap =
      run_cycles cfg later pools (run_health_check_cycle is_success cfg probes pools heap)

  unfoldable pub run_health_checks :
      List UpstreamPool → Config → Bool → Probes is_success → List (Probes is_success) → Heap → Heap
  unfolding run_cycles mark_pools
  run_health_checks pools config skip_initial initial ticks heap =
      run_cycles config.health_check ticks pools (
        if skip_initial
        then mark_pools pools heap
        else run_health_check_cycle is_success config.health_check initial pools heap)
