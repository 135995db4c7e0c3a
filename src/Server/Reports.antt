-- ===== src/Server/Reports.antt =====
-- src/server/mod.rs: `health_handler` and `metrics_handler`. `elapsed` saturates at zero; the text
-- of the metrics registry is an argument.
pub mod Reading
pub mod Laws
use soroban_gate.Common.{ℕ, ◌-◌, ◌/◌, List, [], ◌∷◌, Option, none, some, String, length}
use soroban_gate.Common.Words.{pos}
use soroban_gate.Config.{LoadBalancingAlgorithm}
use soroban_gate.Pool.CircuitBreaker.{CircuitBreakerState, closed, open_, half_open}
use soroban_gate.Pool.Upstream.{
  HealthStatus, healthy, unhealthy, UpstreamState, Heap, Arc, active_connections, latency_us,
  health_status, circuit_breaker_state,
}
use soroban_gate.Pool.Pools.{UpstreamPool, healthy_upstreams}
use soroban_gate.Server.Http.{
  Json, Items, Members, string, integer, array, object, no_items, item, no_members, member,
  Response, text,
}
use soroban_gate.Server.State.{Libraries, AppState}

-- The `{:?}` of each enumeration.
abbrev pub debug_health : HealthStatus → String
debug_health healthy = "Healthy"
debug_health unhealthy = "Unhealthy"

abbrev pub debug_breaker : CircuitBreakerState → String
debug_breaker closed = "Closed"
debug_breaker open_ = "Open"
debug_breaker half_open = "HalfOpen"

abbrev pub debug_algorithm : LoadBalancingAlgorithm → String
debug_algorithm LoadBalancingAlgorithm.wrr = "Wrr"
debug_algorithm LoadBalancingAlgorithm.lc = "Lc"
debug_algorithm LoadBalancingAlgorithm.random = "Random"

abbrev pub members : List (String × Json) → Members
members [] = no_members
members ((name, value) ∷ rest) = member name value (members rest)

-- `iter().map(report).collect()`.
abbrev pub items {ℓ} : {A : Type ℓ} → (A → Json) → List A → Items
items report [] = no_items
items report (x ∷ xs) = item (report x) (items report xs)

-- `env!("CARGO_PKG_VERSION")`, of the package's manifest.
abbrev pub package_version : String
package_version = "0.1.0"

abbrev pub elapsed_secs : ℕ → ℕ → ℕ
elapsed_secs start_time now = (now - start_time) / 1_000_000_000

unfoldable pub upstream_report : UpstreamState → Json
unfolding active_connections latency_us health_status circuit_breaker_state
upstream_report u = object (
    members (
      ("url", string u.url)
      ∷ ("weight", integer (pos u.weight))
      ∷ ("health", string (debug_health (health_status u)))
      ∷ ("circuit_breaker", string (debug_breaker (circuit_breaker_state u)))
      ∷ ("active_connections", integer (active_connections u))
      ∷ ("latency_us", integer (pos (latency_us u)))
      ∷ []))

unfoldable pub pool_report : Heap → UpstreamPool → Json
unfolding upstream_report healthy_upstreams
pool_report heap pool = object (
    members (
      ("name", string pool.name)
      ∷ ("total_upstreams", integer (pos (length pool.upstreams)))
      ∷ ("healthy_upstreams", integer (pos (length (healthy_upstreams heap pool))))
      ∷ ("algorithm", string (debug_algorithm pool.algorithm))
      ∷ ("upstreams", array (items (λ a. upstream_report (heap a)) pool.upstreams))
      ∷ []))

module _ (l : Libraries) where
  unfoldable pub health_handler : AppState l → ℕ → Json
  unfolding pool_report
  health_handler state now = object (
      members (
        ("status", string "ok")
        ∷ ("version", string package_version)
        ∷ ("uptime_secs", integer (pos (elapsed_secs state.start_time now)))
        ∷ ("pools", array (items (pool_report state.heap) state.pools))
        ∷ []))

  unfoldable pub metrics_handler : AppState l → String → Response
  metrics_handler state rendered = elim state.metrics [
    | some m ↦ record {
      status = 200;
      headers = ("Content-Type", "text/plain; version=0.0.4") ∷ [];
      body = text rendered;
    }
    | none ↦ record {
      status = 404;
      headers = ("Content-Type", "text/plain; charset=utf-8") ∷ [];
      body = text "Metrics disabled";
    }
  ]
