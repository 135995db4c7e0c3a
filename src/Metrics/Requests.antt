-- ===== src/Metrics/Requests.antt =====
-- src/server/proxy.rs: how `proxy_handler` counts the requests that it has forwarded.
use soroban_gate.Common.{ℕ, ◌≡◌, ◌≢◌, ◌∙◌, ap, refl, false, List, ◌∷◌, Option, none, some, String}
use soroban_gate.Common.Words.{inc_u64}
use soroban_gate.Common.Outcome.{Outcome, returned, panicked, Result, ok, err}
use soroban_gate.External.Prometheus
use soroban_gate.External.Prometheus.{Prometheus}
use soroban_gate.Metrics.{RequestLabels, request_labels_eq}
use soroban_gate.Metrics.Replay.{request_labels, replay, apply}
use soroban_gate.Server.State.{
  Libraries, AppState, MetricEvent, requests_total, request_duration_seconds,
  upstream_latency_seconds,
}
use soroban_gate.Pool.Upstream.{update, decrement_connection_count}
use soroban_gate.Server.Http.{Response, bytes, json_error_response}
use soroban_gate.Cache.{ttl_for, compute_cache_key}
use soroban_gate.Cache.Memory.{MemoryCache}
use soroban_gate.Server.Proxy.{
  Pending, Exchange, stored, reply, finish, finished, forward_to_upstream, error_status,
}

module _ (l : Libraries) (p : Prometheus) (decimal : ℕ → String) where
  abbrev requests : RequestLabels → List MetricEvent → ℕ
  requests labels log = p.value labels (replay p decimal log).requests_total

  -- The new log counts the labels once more, and all others as before.
  abbrev pub CountsOnce : RequestLabels → List MetricEvent → List MetricEvent → Type 0
  CountsOnce labels log log' =
      (requests labels log' ≡ inc_u64 (requests labels log))
      × ((other : RequestLabels) → labels ≢ other → requests other log' ≡ requests other log)

  abbrev pub labels_of : Pending → ℕ → RequestLabels
  labels_of q status = request_labels decimal q.method q.pool_name status false

  -- The status of a response of the upstream.
  abbrev pub status_sent : Result (ℕ × List ℕ × List (String × String)) String → Option ℕ
  status_sent (ok (status, body, headers)) = some status
  status_sent (err e) = none

  -- The client gets this status, or it is the one that the upstream sent, where the handler panics.
  abbrev pub IsSeen : Option ℕ → Outcome Response → ℕ → Type 0
  IsSeen sent panicked status = sent ≡ some status
  IsSeen sent (returned r) status = r.status ≡ status

  abbrev Counted :
      AppState l → List MetricEvent → Pending → Option ℕ → AppState l × Outcome Response → Type 0
  Counted s log q sent (s', o) =
      (log' : List MetricEvent) × (s'.metrics ≡ some log')
      × (status : ℕ) × IsSeen sent o status
      × CountsOnce (labels_of q status) log log'

  inc-CountsOnce :
      (labels : RequestLabels) (log log' : List MetricEvent)
      → Prometheus.IsLawful p
      → (replay p decimal log').requests_total ≡ p.inc labels (replay p decimal log).requests_total
      → CountsOnce labels log log'
  inc-CountsOnce labels log log' lawful e = (
    ap (p.value labels) e ∙ lawful.value-inc labels _,
    λ other different. ap (p.value other) e ∙ lawful.value-inc_other other labels _ different,
  )

  seen :
      (o : Outcome (Option (MemoryCache l.moka))) (r : Response) {status : ℕ}
      → r.status ≡ status
      → IsSeen (some status) (reply l o r) status
  seen panicked r e = refl
  seen (returned cache) r e = e

  finished-Counted :
      (s : AppState l) (log : List MetricEvent) (q : Pending)
      (result : Result (ℕ × List ℕ × List (String × String)) String) (now : ℕ)
      → Prometheus.IsLawful p
      → s.metrics ≡ some log
      → Counted s log q (status_sent result) (finished l s q result now)
  unfolding replay apply json_error_response
  finished-Counted s log q (ok (status, body, headers)) now lawful m =
      let log' : List MetricEvent =
        upstream_latency_seconds (s.heap q.upstream).url q.pool_name
        ∷ request_duration_seconds q.method q.pool_name
        ∷ requests_total q.method q.pool_name status false
        ∷ log in
      (
        log',
        rw m refl,
        status,
        seen
            (stored l s.cache (ttl_for s.cache_ttl_table q.method) status now
              (compute_cache_key l.serde_json l.sha256 q.body) body)
            (record { status = status; headers = headers; body = bytes body }) refl,
        inc-CountsOnce (labels_of q status) log log' lawful refl,
      )
  finished-Counted s log q (err e) now lawful m =
      let log' : List MetricEvent =
        requests_total q.method q.pool_name (error_status l e) false ∷ log in
      (
        log',
        rw m refl,
        error_status l e,
        refl,
        inc-CountsOnce (labels_of q (error_status l e)) log log' lawful refl,
      )

  -- Whatever comes of the exchange with an upstream, the registry counts the request once, under its
  -- method, its pool and the status that the client gets, as one that the cache did not answer, and
  -- counts no other request. Where the cache panics and the client gets
  -- no status, it is the one that the upstream sent. The metrics are enabled; counters are 64-bit words.
  pub finish-CountsOnce :
      (s : AppState l) (log : List MetricEvent) (q : Pending) (exchange : Exchange l) (now : ℕ)
      → Prometheus.IsLawful p
      → s.metrics ≡ some log
      → (log' : List MetricEvent) × ((finish l s decimal q exchange now).0.metrics ≡ some log')
        × (status : ℕ) × IsSeen
            (status_sent
              (forward_to_upstream l decimal s.config.server.request_timeout_ms exchange))
            (finish l s decimal q exchange now).1
            status
        × CountsOnce (labels_of q status) log log'
  unfolding finish
  finish-CountsOnce s log q exchange now lawful m =
      finished-Counted (record s { heap = update s.heap q.upstream decrement_connection_count }) log
        q (forward_to_upstream l decimal s.config.server.request_timeout_ms exchange) now lawful m
