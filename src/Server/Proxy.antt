-- ===== src/Server/Proxy.antt =====
-- src/server/proxy.rs. The handler awaits the upstream once; `begin` is the part before, `finish`
-- the part after, and between them other requests run. Times are those at which a part runs.
pub mod Laws
pub mod Pools
pub mod Caching
pub mod Failover
pub mod Recovered
pub mod Balanced
use soroban_gate.Common.{
  ℕ, Bool, true, false, not, ◌&&◌, ◌||◌, List, [], ◌∷◌, Option, none, some, String, if◌then◌else◌,
  str_eq, leb, ltb, ◌==◌,
}
use soroban_gate.Common.Text.{cat, contains}
use soroban_gate.Common.Words.{ℤ, negsuc}
use soroban_gate.Common.Outcome.{Outcome, returned, panicked, Result, ok, err}
use soroban_gate.Pool.Upstream.{
  UpstreamState, Arc, update, increment_connection_count, decrement_connection_count,
}
use soroban_gate.Pool.Balancer.{◌>>=◌}
use soroban_gate.Pool.CircuitBreaker.{record_failure}
use soroban_gate.Pool.Pools.{UpstreamPool, select_upstream}
use soroban_gate.Routing.{route, extract_json_rpc_method}
use soroban_gate.Cache.{ttl_for, compute_cache_key}
use soroban_gate.Cache.Memory
use soroban_gate.Server.Http.{Request, Response, Body, bytes, json_error_response}
use soroban_gate.Server.State.{
  Libraries, AppState, MetricEvent, cache_hits_total, cache_misses_total, requests_total,
  request_duration_seconds, upstream_latency_seconds, note_metric,
}

-- A request that waits for its upstream.
pub record Pending : Type 0 where
  pub upstream : Arc
  pub method : String
  pub pool_name : String
  pub body : List ℕ

pub data Begun : Type 0 where
  answered : Response → Begun
  forwarding : Pending → Begun

-- `iter().find(|p| p.name == name)`.
unfoldable pub find_pool : String → List UpstreamPool → Option UpstreamPool
find_pool name [] = none
find_pool name (p ∷ ps) = if str_eq p.name name then some p else find_pool name ps

-- The found pool is shared: what the selection does to its counter is seen by all.
unfoldable pub put_pool : UpstreamPool → List UpstreamPool → List UpstreamPool
put_pool pool [] = []
put_pool pool (p ∷ ps) = if str_eq p.name pool.name then pool ∷ ps else p ∷ put_pool pool ps

module _ (l : Libraries) where
  -- From the selection of the upstream on, up to the await.
  abbrev pub start_forward :
      AppState l
      → String
      → String
      → List ℕ
      → Outcome (Option Arc × UpstreamPool)
      → Outcome (AppState l × Begun)
  start_forward state method pool_name body panicked = panicked
  start_forward state method pool_name body (returned (none, pool)) = returned (
    record state { pools = put_pool pool state.pools },
    answered (json_error_response 503 (negsuc 32_003) "No healthy upstreams available"),
  )
  start_forward state method pool_name body (returned (some u, pool)) = returned (
    record state {
      pools = put_pool pool state.pools;
      heap = update state.heap u increment_connection_count;
    },
    forwarding (record { upstream = u; method = method; pool_name = pool_name; body = body }),
  )

  -- The part of the handler after the cache.
  unfoldable pub forward :
      AppState l → (ℕ → ℕ) → String → String → List ℕ → Outcome (AppState l × Begun)
  unfolding find_pool select_upstream put_pool
  forward state draw method pool_name body = elim (find_pool pool_name state.pools) [
    | none ↦
        returned (state, answered (json_error_response 500 (negsuc 31_999) "Pool not configured"))
    | some pool ↦ start_forward state method pool_name body (select_upstream state.heap draw pool)
  ]

  abbrev pub cached_response : List ℕ → Response
  cached_response body = record {
    status = 200;
    headers = ("Content-Type", "application/json") ∷ [];
    body = bytes body;
  }

  abbrev pub count_hit : String → String → AppState l → AppState l
  count_hit method pool_name state = note_metric l (request_duration_seconds method pool_name) (
      note_metric l (requests_total method pool_name 200 true)
        (note_metric l (cache_hits_total method) state))

  -- The look into the cache; the result of `get` is the last argument.
  abbrev pub after_get :
      AppState l
      → (ℕ → ℕ)
      → String
      → String
      → List ℕ
      → Memory.MemoryCache l.moka × Option (List ℕ)
      → Outcome (AppState l × Begun)
  after_get state draw method pool_name body (cache, some cached_body) = returned (
    count_hit method pool_name (record state { cache = some cache }),
    answered (cached_response cached_body),
  )
  after_get state draw method pool_name body (cache, none) =
      forward (note_metric l (cache_misses_total method) (record state { cache = some cache })) draw
        method pool_name body

  unfoldable pub through_cache :
      AppState l → (ℕ → ℕ) → ℕ → String → String → List ℕ → Outcome (AppState l × Begun)
  unfolding ttl_for compute_cache_key Memory.get
  through_cache state draw now method pool_name body = elim state.cache [
    | none ↦ forward state draw method pool_name body
    | some cache ↦
        if ttl_for state.cache_ttl_table method == 0
        then forward state draw method pool_name body
        else after_get state draw method pool_name body
            (Memory.get l.moka cache (compute_cache_key l.serde_json l.sha256 body) now)
  ]

  abbrev pub parse_error : Response
  parse_error = json_error_response 400 (negsuc 32_699) "Parse error"

  -- `proxy_handler` up to the await.
  unfoldable pub begin : AppState l → (ℕ → ℕ) → ℕ → Request → Outcome (AppState l × Begun)
  unfolding route extract_json_rpc_method
  begin state draw now request = elim request.body [
    | none ↦ returned (state, answered parse_error)
    | some body ↦ elim (extract_json_rpc_method l.serde_json body) [
      | none ↦ returned (state, answered parse_error)
      | some method ↦ through_cache state draw now method (route state.router method) body
    ]
  ]

  -- What comes of the exchange with the upstream, beyond this code: the address does not parse, the
  -- request cannot be built, no response within the time, an error of the client or of the body, or
  -- a response.
  pub data Exchange : Type 0 where
    bad_uri bad_request client_error body_error : String → Exchange
    no_response_in_time : Exchange
    response : ℕ → List (String × String) → List ℕ → Exchange

  -- `decimal` prints a number.
  unfoldable pub forward_to_upstream :
      (ℕ → String) → ℕ → Exchange → Result (ℕ × List ℕ × List (String × String)) String
  forward_to_upstream decimal timeout_ms (bad_uri e) = err e
  forward_to_upstream decimal timeout_ms (bad_request e) = err e
  forward_to_upstream decimal timeout_ms (client_error e) = err e
  forward_to_upstream decimal timeout_ms (body_error e) = err e
  forward_to_upstream decimal timeout_ms no_response_in_time =
      err (cat "Upstream request timed out after " (cat (decimal timeout_ms) "ms"))
  forward_to_upstream decimal timeout_ms (response status headers body) = ok (status, body, headers)

  -- `StatusCode::is_success`.
  abbrev pub is_success : ℕ → Bool
  is_success status = leb 200 status && ltb status 300

  abbrev count_completed : AppState l → Pending → ℕ → AppState l
  count_completed state p status =
      note_metric l (upstream_latency_seconds (state.heap p.upstream).url p.pool_name) (
        note_metric l (request_duration_seconds p.method p.pool_name)
          (note_metric l (requests_total p.method p.pool_name status false) state))

  -- The response is kept where there is a cache, the method has a lifetime, and it succeeded.
  abbrev pub stored :
      Option (Memory.MemoryCache l.moka)
      → ℕ
      → ℕ
      → ℕ
      → List ℕ
      → List ℕ
      → Outcome (Option (Memory.MemoryCache l.moka))
  stored none ttl status now key body = returned none
  stored (some cache) ttl status now key body =
      if not (ttl == 0) && is_success status
      then (do cache' ← Memory.set l.moka cache key body ttl now; returned (some cache'))
      else returned (some cache)

  -- A panic of the cache ends the handler without a response.
  abbrev pub reply : Outcome (Option (Memory.MemoryCache l.moka)) → Response → Outcome Response
  reply panicked r = panicked
  reply (returned cache) r = returned r

  abbrev pub fail_upstream : ℕ → UpstreamState → UpstreamState
  fail_upstream now u = record u {
    mutable_ = record u.mutable_ {
      circuit_breaker = record_failure u.mutable_.circuit_breaker now;
    };
  }

  unfoldable pub error_status : String → ℕ
  unfolding contains
  error_status e = if contains e "timed out" || contains e "timeout" then 504 else 502

  -- `proxy_handler` from the await on. The parts of the response were parsed as such, so that
  -- putting them together again cannot fail.
  abbrev pub finished :
      AppState l
      → Pending
      → Result (ℕ × List ℕ × List (String × String)) String
      → ℕ
      → AppState l × Outcome Response
  finished state p (ok (status, body, headers)) now =
      let counted = count_completed state p status in
      let cache =
        stored counted.cache (ttl_for state.cache_ttl_table p.method) status now
          (compute_cache_key l.serde_json l.sha256 p.body) body in
      (
        record counted { cache = Memory.after counted.cache cache },
        reply cache (record { status = status; headers = headers; body = bytes body }),
      )
  finished state p (err e) now =
      let failed = record state { heap = update state.heap p.upstream (fail_upstream now) } in
      (
        note_metric l (requests_total p.method p.pool_name (error_status e) false) failed,
        returned (json_error_response (error_status e) (negsuc 31_999) e),
      )

  unfoldable pub finish :
      AppState l → (ℕ → String) → Pending → Exchange → ℕ → AppState l × Outcome Response
  unfolding forward_to_upstream error_status record_failure Memory.set
  finish state decimal p exchange now =
      finished (record state { heap = update state.heap p.upstream decrement_connection_count }) p
        (forward_to_upstream decimal state.config.server.request_timeout_ms exchange) now
