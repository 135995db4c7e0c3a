-- ===== src/Server/Admin/Status.antt =====
-- src/server/admin.rs: `status_handler` and `cache_stats_handler`.
use soroban_gate.Common.{
  ℕ, ◌+◌, ◌*◌, ◌/◌, ◌%◌, [], ◌∷◌, none, some, String, length, if◌then◌else◌, ltb, false,
}
use soroban_gate.Common.Words.{pos, u64_mod}
use soroban_gate.Config.{LoadBalancingAlgorithm}
use soroban_gate.Pool.CircuitBreaker.{CircuitBreakerState, closed, open_, half_open}
use soroban_gate.Pool.CircuitBreaker
use soroban_gate.Pool.Upstream.{
  HealthStatus, healthy, unhealthy, UpstreamState, Heap, active_connections, latency_us,
}
use soroban_gate.Pool.Pools.{UpstreamPool, healthy_upstreams}
use soroban_gate.Cache.{CacheStats}
use soroban_gate.Cache.Memory
use soroban_gate.Server.Http.{Json, string, integer, number, boolean, array, object}
use soroban_gate.Server.State.{Libraries, AppState}
use soroban_gate.Server.Reports.{items, members, package_version, elapsed_secs}
use soroban_gate.Server.Admin.{Answer}

abbrev pub breaker_name : CircuitBreakerState → String
breaker_name closed = "closed"
breaker_name open_ = "open"
breaker_name half_open = "half-open"

abbrev pub health_name : HealthStatus → String
health_name healthy = "healthy"
health_name unhealthy = "unhealthy"

-- `format!("{:?}", …).to_lowercase()`.
abbrev pub algorithm_name : LoadBalancingAlgorithm → String
algorithm_name LoadBalancingAlgorithm.wrr = "wrr"
algorithm_name LoadBalancingAlgorithm.lc = "lc"
algorithm_name LoadBalancingAlgorithm.random = "random"

unfoldable pub upstream_status : UpstreamState → Json
unfolding active_connections latency_us CircuitBreaker.state_of
upstream_status u = object (
    members (
      ("url", string u.url)
      ∷ ("state", string (health_name u.mutable_.health))
      ∷ (
        "circuit_breaker",
        string (breaker_name (CircuitBreaker.state_of u.mutable_.circuit_breaker)),
      )
      ∷ ("active_connections", integer (active_connections u))
      ∷ ("weight", integer (pos u.weight))
      ∷ ("latency_p99_ms", integer (pos (latency_us u / 1000)))
      ∷ []))

unfoldable pub pool_status : Heap → UpstreamPool → Json
unfolding upstream_status healthy_upstreams
pool_status heap pool = object (
    members (
      ("name", string pool.name)
      ∷ ("algorithm", string (algorithm_name pool.algorithm))
      ∷ ("total_upstreams", integer (pos (length pool.upstreams)))
      ∷ ("healthy_upstreams", integer (pos (length (healthy_upstreams heap pool))))
      ∷ ("upstreams", array (items (λ a. upstream_status (heap a)) pool.upstreams))
      ∷ []))

-- `hit_rate` is rounded to four places, halves away from zero, with exact fractions in place of
-- `f64`; the sum of the counters is that of a `u64`.
unfoldable pub hit_rate : CacheStats → Json
hit_rate stats =
    let total = (stats.hit_count + stats.miss_count) % u64_mod in
    if ltb 0 total
    then number ((20_000 * stats.hit_count + total) / (2 * total)) 10_000
    else number 0 10_000

module _ (l : Libraries) where
  unfoldable pub status_handler : AppState l → ℕ → Answer
  unfolding pool_status
  status_handler state now = (
    200,
    object (
        members (
          ("version", string package_version)
          ∷ ("uptime_secs", integer (pos (elapsed_secs state.start_time now)))
          ∷ ("pools", array (items (pool_status state.heap) state.pools))
          ∷ [])),
  )

  unfoldable pub cache_stats_handler : AppState l → Answer
  unfolding Memory.stats hit_rate
  cache_stats_handler state = elim state.cache [
    | some cache ↦
        let stats = Memory.stats l.moka cache in
        (
          200,
          object (
              members (
                ("hit_count", integer (pos stats.hit_count))
                ∷ ("miss_count", integer (pos stats.miss_count))
                ∷ ("hit_rate", hit_rate stats)
                ∷ ("size", integer (pos stats.size))
                ∷ ("eviction_count", integer (pos stats.eviction_count))
                ∷ [])),
        )
    | none ↦ (200, object (members (("enabled", boolean false) ∷ [])))
  ]
