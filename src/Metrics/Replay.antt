-- ===== src/Metrics/Replay.antt =====
-- src/server/proxy.rs and src/server/mod.rs: what the calls that the handlers make leave in the
-- families of src/metrics/mod.rs. The handlers' calls are the log of `AppState`, the latest first.
use soroban_gate.Common.{
  ℕ, ◌%◌, ◌≡◌, ◌≢◌, ◌∙◌, sym, refl, subst, Bool, true, false, List, [], ◌∷◌, String, count,
  Bool-cases, inl, inr, arith,
}
use soroban_gate.Common.Words.{u64_mod, inc_u64}
use soroban_gate.External.Prometheus
use soroban_gate.External.Prometheus.{Prometheus}
use soroban_gate.Metrics
use soroban_gate.Metrics.{
  Metrics, RequestLabels, request_labels_eq, method_pool_labels_eq, upstream_labels_eq,
  method_labels_eq, tier_reason_labels_eq,
}
use soroban_gate.Server.State.{
  MetricEvent, cache_hits_total, cache_misses_total, requests_total, request_duration_seconds,
  upstream_latency_seconds, rate_limit_rejections_total,
}

abbrev pub bool_text : Bool → String
bool_text true = "true"
bool_text false = "false"

-- `decimal` prints a status.
abbrev pub request_labels : (ℕ → String) → String → String → ℕ → Bool → RequestLabels
request_labels decimal method pool status cached = record {
  method = method;
  pool = pool;
  status = decimal status;
  cached = bool_text cached;
}

module _ (p : Prometheus) (decimal : ℕ → String) where
  -- The call behind an event, such as `requests_total.get_or_create(&labels).inc()`.
  unfoldable pub apply : MetricEvent → Metrics p → Metrics p
  apply (cache_hits_total method) m = record m {
    cache_hits_total = p.inc (record { method = method }) m.cache_hits_total;
  }
  apply (cache_misses_total method) m = record m {
    cache_misses_total = p.inc (record { method = method }) m.cache_misses_total;
  }
  apply (requests_total method pool status cached) m = record m {
    requests_total = p.inc (request_labels decimal method pool status cached) m.requests_total;
  }
  apply (request_duration_seconds method pool) m = record m {
    request_duration_seconds =
        p.observe (record { method = method; pool = pool }) m.request_duration_seconds;
  }
  apply (upstream_latency_seconds upstream pool) m = record m {
    upstream_latency_seconds =
        p.observe (record { upstream = upstream; pool = pool }) m.upstream_latency_seconds;
  }
  apply (rate_limit_rejections_total tier reason) m = record m {
    rate_limit_rejections_total =
        p.inc (record { tier = tier; reason = reason }) m.rate_limit_rejections_total;
  }

  unfoldable pub replay : List MetricEvent → Metrics p
  unfolding apply Metrics.new
  replay [] = (Metrics.new p).0
  replay (e ∷ log) = apply e (replay log)

  -- No call of the handlers sets a gauge.
  replay-gauges :
      (log : List MetricEvent)
      → ((replay log).upstream_health ≡ p.no_gauges)
        × ((replay log).circuit_breaker_state ≡ p.no_gauges)
        × ((replay log).active_connections ≡ p.no_gauges)
  unfolding replay apply Metrics.new
  replay-gauges [] = (refl, refl, refl)
  replay-gauges (cache_hits_total m ∷ log) = replay-gauges log
  replay-gauges (cache_misses_total m ∷ log) = replay-gauges log
  replay-gauges (requests_total m q s c ∷ log) = replay-gauges log
  replay-gauges (request_duration_seconds m q ∷ log) = replay-gauges log
  replay-gauges (upstream_latency_seconds u q ∷ log) = replay-gauges log
  replay-gauges (rate_limit_rejections_total t r ∷ log) = replay-gauges log

  same_labels-false : (a b : RequestLabels) → request_labels_eq.same a b ≡ false → a ≢ b
  same_labels-false a b e same = ground (arith, e, (request_labels_eq.same_iff a b).1 same)

  -- The calls that count a request under the labels.
  abbrev pub counts : RequestLabels → MetricEvent → Bool
  counts labels (requests_total method pool status cached) =
      request_labels_eq.same (request_labels decimal method pool status cached) labels
  counts labels _ = false

  abbrev requests : RequestLabels → List MetricEvent → ℕ
  requests labels log = p.value labels (replay log).requests_total

  -- The same labels, written in another way.
  pub value-inc_same :
      (labels here : RequestLabels) (family : p.Counters RequestLabels)
      → Prometheus.IsLawful p
      → request_labels_eq.same here labels ≡ true
      → p.value labels (p.inc here family) ≡ inc_u64 (p.value labels family)
  value-inc_same labels here family lawful same =
      subst (λ x. p.value labels (p.inc x family) ≡ inc_u64 (p.value labels family))
        (sym ((request_labels_eq.same_iff here labels).0 same)) (lawful.value-inc labels family)

  replay-requests_total :
      (method pool : String) (status : ℕ) (cached : Bool) (log : List MetricEvent)
      → (replay (requests_total method pool status cached ∷ log)).requests_total
        ≡ p.inc (request_labels decimal method pool status cached) (replay log).requests_total
  unfolding replay apply
  replay-requests_total method pool status cached log = refl

  -- The counter of the requests with some labels is the number of the calls with these labels, as a
  -- 64-bit word.
  pub replay-count :
      (labels : RequestLabels) (log : List MetricEvent)
      → Prometheus.IsLawful p
      → p.value labels (replay log).requests_total ≡ count (counts labels) log % u64_mod
  unfolding replay apply Metrics.new
  replay-count labels [] lawful = lawful.value-none labels ∙ refl
  replay-count labels (cache_hits_total m ∷ log) lawful = replay-count labels log lawful
  replay-count labels (cache_misses_total m ∷ log) lawful = replay-count labels log lawful
  replay-count labels (request_duration_seconds m q ∷ log) lawful = replay-count labels log lawful
  replay-count labels (upstream_latency_seconds u q ∷ log) lawful = replay-count labels log lawful
  replay-count labels (rate_limit_rejections_total t r ∷ log) lawful =
      replay-count labels log lawful
  replay-count labels (requests_total method pool status cached ∷ log) lawful =
      let here = request_labels decimal method pool status cached in
      elim (Bool-cases (request_labels_eq.same here labels)) [
        | inl same ↦
            value-inc_same labels here (replay log).requests_total lawful same
            ∙ rw same (omega (arith, replay-count labels log lawful))
        | inr other ↦
            lawful.value-inc_other labels here (replay log).requests_total
              (same_labels-false here labels other)
            ∙ rw other (replay-count labels log lawful)
      ]
