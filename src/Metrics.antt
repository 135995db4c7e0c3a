-- ===== src/Metrics.antt =====
-- src/metrics/mod.rs: the label sets, the families and the registry. A registry is the list of the
-- names and helps that were registered; the encoding to text is an argument of the handler that
-- serves it.
pub mod Replay
pub mod Requests
mod Tests
use soroban_gate.Common.{ℕ, List, [], ◌∷◌, String, ◌&&◌, str_eq, str_eq_iff, arith}
use soroban_gate.External.Prometheus.{Prometheus, Labels}

pub record RequestLabels : Type 0 where
  pub method : String
  pub pool : String
  pub status : String
  pub cached : String

pub record MethodPoolLabels : Type 0 where
  pub method : String
  pub pool : String

pub record UpstreamLabels : Type 0 where
  pub upstream : String
  pub pool : String

pub record MethodLabels : Type 0 where
  pub method : String

pub record TierReasonLabels : Type 0 where
  pub tier : String
  pub reason : String

pub record PoolLabels : Type 0 where
  pub pool : String

-- The derived equalities.
instance abbrev pub request_labels_eq : Labels RequestLabels
request_labels_eq = record {
  same = λ a b.
      str_eq a.method b.method
      && str_eq a.pool b.pool
      && str_eq a.status b.status
      && str_eq a.cached b.cached;
  same_iff = λ a b. ground (
    arith,
    str_eq_iff a.method b.method,
    str_eq_iff a.pool b.pool,
    str_eq_iff a.status b.status,
    str_eq_iff a.cached b.cached,
  );
}

instance abbrev pub method_pool_labels_eq : Labels MethodPoolLabels
method_pool_labels_eq = record {
  same = λ a b. str_eq a.method b.method && str_eq a.pool b.pool;
  same_iff = λ a b. ground (arith, str_eq_iff a.method b.method, str_eq_iff a.pool b.pool);
}

instance abbrev pub upstream_labels_eq : Labels UpstreamLabels
upstream_labels_eq = record {
  same = λ a b. str_eq a.upstream b.upstream && str_eq a.pool b.pool;
  same_iff = λ a b. ground (arith, str_eq_iff a.upstream b.upstream, str_eq_iff a.pool b.pool);
}

instance abbrev pub method_labels_eq : Labels MethodLabels
method_labels_eq = record {
  same = λ a b. str_eq a.method b.method;
  same_iff = λ a b. ground (arith, str_eq_iff a.method b.method);
}

instance abbrev pub tier_reason_labels_eq : Labels TierReasonLabels
tier_reason_labels_eq = record {
  same = λ a b. str_eq a.tier b.tier && str_eq a.reason b.reason;
  same_iff = λ a b. ground (arith, str_eq_iff a.tier b.tier, str_eq_iff a.reason b.reason);
}

abbrev pub Registry : Type 0
Registry = List (String × String)

module _ (p : Prometheus) where
  pub record Metrics : Type 0 where
    pub requests_total : p.Counters RequestLabels
    pub request_duration_seconds : p.Histograms MethodPoolLabels
    pub upstream_health : p.Gauges UpstreamLabels
    pub upstream_latency_seconds : p.Histograms UpstreamLabels
    pub cache_hits_total : p.Counters MethodLabels
    pub cache_misses_total : p.Counters MethodLabels
    pub rate_limit_rejections_total : p.Counters TierReasonLabels
    pub circuit_breaker_state : p.Gauges UpstreamLabels
    pub active_connections : p.Gauges PoolLabels

  unfoldable pub new : Metrics × Registry
  new = (
    record {
      requests_total = p.no_counters;
      request_duration_seconds = p.no_histograms;
      upstream_health = p.no_gauges;
      upstream_latency_seconds = p.no_histograms;
      cache_hits_total = p.no_counters;
      cache_misses_total = p.no_counters;
      rate_limit_rejections_total = p.no_counters;
      circuit_breaker_state = p.no_gauges;
      active_connections = p.no_gauges;
    },
    ("sorobangate_requests", "Total requests")
        ∷ ("sorobangate_request_duration_seconds", "Request duration in seconds")
        ∷ ("sorobangate_upstream_health", "Upstream health state (1=healthy, 0=unhealthy)")
        ∷ ("sorobangate_upstream_latency_seconds", "Upstream response latency in seconds")
        ∷ ("sorobangate_cache_hits", "Cache hits by method")
        ∷ ("sorobangate_cache_misses", "Cache misses by method")
        ∷ ("sorobangate_rate_limit_rejections", "Rate limit rejections")
        ∷ (
          "sorobangate_circuit_breaker_state",
          "Circuit breaker state (0=closed, 1=open, 2=half-open)",
        )
        ∷ ("sorobangate_active_connections", "Active connections per pool")
        ∷ [],
  )

  pub record MetricsHandle : Type 0 where
    pub metrics : Metrics
    pub registry : Registry

  unfoldable pub handle : MetricsHandle
  unfolding new
  handle = let (metrics, registry) = new in record { metrics = metrics; registry = registry }
