-- ===== src/Server/Gateway/Counting.antt =====
-- src/server/: what each handler adds to the log of the metrics.
use soroban_gate.Common.{
  ℕ, suc, ◌≡◌, ap, sym, refl, subst, Bool, true, false, List, ◌∷◌, Option, none, some, String,
  count, if◌then◌else◌, Bool-cases, Option-cases, inl, inr, arith, ◌==◌,
}
use soroban_gate.Common.Outcome.{Outcome, returned, panicked, Result, ok, err}
use soroban_gate.Cache.{ttl_for, compute_cache_key}
use soroban_gate.Cache.Memory
use soroban_gate.Pool.Upstream.{Arc, update, decrement_connection_count}
use soroban_gate.Pool.Pools.{UpstreamPool, select_upstream}
use soroban_gate.RateLimit.TokenBucket.{RateLimited}
use soroban_gate.Routing.{route, extract_json_rpc_method}
use soroban_gate.Server.Http.{Request, json_error_response}
use soroban_gate.Common.Words.{negsuc}
use soroban_gate.Server.State.{
  Libraries, AppState, MetricEvent, cache_hits_total, cache_misses_total, requests_total,
  request_duration_seconds, upstream_latency_seconds, rate_limit_rejections_total,
}
use soroban_gate.Server.Middleware.{
  layers, verdict_decision, auth_middleware, rate_limit_middleware,
}
use soroban_gate.Server.Middleware.{Decision, run_next, tier_label}
use soroban_gate.Server.Middleware.Laws.{
  charged, layers-respond, layers-run_next, rate_limit_middleware-on, Decision-cases,
}
use soroban_gate.Server.Proxy.{
  Pending, Begun, answered, forwarding, parse_error, error_status, begin, forward, start_forward,
  through_cache, after_get, find_pool, finish, finished, forward_to_upstream, Exchange,
}
use soroban_gate.Server.Proxy.Laws.{begin-through_cache, through_cache-get}

-- A request that went to an upstream, one that the cache answered, and a hit in the cache.
abbrev pub is_forwarded : MetricEvent → Bool
is_forwarded (requests_total method pool status cached) = if cached then false else true
is_forwarded _ = false

abbrev pub is_cached : MetricEvent → Bool
is_cached (requests_total method pool status cached) = cached
is_cached _ = false

abbrev pub is_hit : MetricEvent → Bool
is_hit (cache_hits_total method) = true
is_hit _ = false

-- The log counts so many forwarded requests, so many that the cache answered, and as many hits.
abbrev pub Accounts : ℕ → ℕ → Option (List MetricEvent) → Type 0
Accounts n h metrics =
    (log : List MetricEvent) × (metrics ≡ some log)
    × (count is_forwarded log ≡ n)
    × (count is_cached log ≡ h)
    × (count is_hit log ≡ h)

module _ (l : Libraries) where
  abbrev is_found : Option (List ℕ) → Bool
  is_found none = false
  is_found (some bytes) = true

  -- The cache is asked for this method, and what it holds for this body has not expired.
  abbrev holds : AppState l → ℕ → String → List ℕ → Bool
  holds s now method body = elim s.cache [
    | none ↦ false
    | some c ↦
        if ttl_for s.cache_ttl_table method == 0
        then false
        else is_found (Memory.get l.moka c (compute_cache_key l.serde_json l.sha256 body) now).1
  ]

  -- The cache holds an answer to the request.
  abbrev pub in_cache : AppState l → ℕ → Request → Bool
  in_cache s now request = elim request.body [
    | none ↦ false
    | some body ↦ elim (extract_json_rpc_method l.serde_json body) [
      | none ↦ false
      | some method ↦ holds s now method body
    ]
  ]

  -- A request that the cache holds an answer to is answered, and counted as a hit; any other one
  -- is not counted yet.
  abbrev pub Accounted : ℕ → ℕ → Bool → Outcome (AppState l × Begun) → Type 0
  Accounted n h hit panicked = Unit
  Accounted n h false (returned (s, b)) = Accounts n h s.metrics
  Accounted n h true (returned (s, answered r)) = Accounts n (suc h) s.metrics
  Accounted n h true (returned (s, forwarding p)) = ⊥

  start_forward-Accounted :
      (s : AppState l) (n h : ℕ) (method name : String) (body : List ℕ)
      (o : Outcome (Option Arc × UpstreamPool))
      → Accounts n h s.metrics
      → Accounted n h false (start_forward l s method name body o)
  start_forward-Accounted s n h method name body panicked a = tt
  start_forward-Accounted s n h method name body (returned (none, q)) a = a
  start_forward-Accounted s n h method name body (returned (some u, q)) a = a

  not_counted :
      (n h : ℕ) (hit : Bool) (o : Outcome (AppState l × Begun)) (s : AppState l) (b : Begun)
      → hit ≡ false
      → o ≡ returned (s, b)
      → Accounts n h s.metrics
      → Accounted n h hit o
  not_counted n h hit o s b off e a =
      subst (λ x. Accounted n h x o) (sym off) (subst (Accounted n h false) (sym e) a)

  forward-Accounted :
      (s : AppState l) (n h : ℕ) (draw : ℕ → ℕ) (method name : String) (body : List ℕ)
      → Accounts n h s.metrics
      → Accounted n h false (forward l s draw method name body)
  unfolding forward
  forward-Accounted s n h draw method name body a = elim (Option-cases (find_pool name s.pools)) [
    | inl m ↦
        not_counted n h false (forward l s draw method name body) s
          (answered (json_error_response 500 (negsuc 31_999) "Pool not configured")) refl
          (ground (arith, m)) a
    | inr (q, m) ↦
        subst (Accounted n h false) (sym (ground (arith, m)))
          (start_forward-Accounted s n h method name body (select_upstream s.heap draw q) a)
  ]

  after_get-Accounted :
      (s : AppState l) (n h : ℕ) (draw : ℕ → ℕ) (method name : String) (body : List ℕ)
      (got : Memory.MemoryCache l.moka × Option (List ℕ))
      → Accounts n h s.metrics
      → Accounted n h (is_found got.1) (after_get l s draw method name body got)
  after_get-Accounted s n h draw method name body (cache, some b) (log, m, f, c, k) = (
    request_duration_seconds method name
        ∷ requests_total method name 200 true
        ∷ cache_hits_total method
        ∷ log,
    rw m refl,
    f,
    ap suc c,
    ap suc k,
  )
  after_get-Accounted s n h draw method name body (cache, none) (log, m, f, c, k) =
      forward-Accounted _ n h draw method name body
        (cache_misses_total method ∷ log, rw m refl, f, c, k)

  through_cache-Accounted :
      (s : AppState l) (n h : ℕ) (draw : ℕ → ℕ) (now : ℕ) (method name : String) (body : List ℕ)
      → Accounts n h s.metrics
      → Accounted n h (holds s now method body) (through_cache l s draw now method name body)
  unfolding through_cache
  through_cache-Accounted s n h draw now method name body a =
      let through = forward-Accounted s n h draw method name body a in
      elim (Option-cases s.cache) [
        | inl off ↦ unasked (ground (arith, off)) (ground (arith, off)) through
        | inr (c, on) ↦ elim (Bool-cases (ttl_for s.cache_ttl_table method == 0)) [
          | inl z ↦ unasked (ground (arith, on, z)) (ground (arith, on, z)) through
          | inr z ↦
              let got = Memory.get l.moka c (compute_cache_key l.serde_json l.sha256 body) now in
              let asked : holds s now method body ≡ is_found got.1 = ground (arith, on, z) in
              subst (λ x. Accounted n h x (through_cache l s draw now method name body)) (sym asked)
                (subst (Accounted n h (is_found got.1))
                  (sym (through_cache-get l s draw now method name body c on z))
                  (after_get-Accounted s n h draw method name body got a))
        ]
      ]
    where
      unasked :
          holds s now method body ≡ false
          → through_cache l s draw now method name body ≡ forward l s draw method name body
          → Accounted n h false (forward l s draw method name body)
          → Accounted n h (holds s now method body) (through_cache l s draw now method name body)
      unasked off e through =
          subst (λ x. Accounted n h x (through_cache l s draw now method name body)) (sym off)
            (subst (Accounted n h false) (sym e) through)

  pub begin-Accounted :
      (s : AppState l) (n h : ℕ) (draw : ℕ → ℕ) (now : ℕ) (request : Request)
      → Accounts n h s.metrics
      → Accounted n h (in_cache s now request) (begin l s draw now request)
  unfolding begin
  begin-Accounted s n h draw now request a = elim (Option-cases request.body) [
    | inl m ↦
        not_counted n h (in_cache s now request) (begin l s draw now request) s
          (answered (parse_error l)) (ground (arith, m)) (ground (arith, m)) a
    | inr (body, m) ↦ elim (Option-cases (extract_json_rpc_method l.serde_json body)) [
      | inl k ↦
          not_counted n h (in_cache s now request) (begin l s draw now request) s
            (answered (parse_error l)) (ground (arith, m, k)) (ground (arith, m, k)) a
      | inr (method, k) ↦
          let same : in_cache s now request ≡ holds s now method body = ground (arith, m, k) in
          subst (λ x. Accounted n h x (begin l s draw now request)) (sym same)
            (subst (Accounted n h (holds s now method body))
              (sym (begin-through_cache l s draw now request body method m k))
              (through_cache-Accounted s n h draw now method (route s.router method) body a))
    ]
  ]

  pub finish-Accounts :
      (s : AppState l) (n h : ℕ) (decimal : ℕ → String) (p : Pending) (exchange : Exchange l)
      (now : ℕ)
      → Accounts n h s.metrics
      → Accounts (suc n) h (finish l s decimal p exchange now).0.metrics
  unfolding finish
  finish-Accounts s n h decimal p exchange now a =
      go (forward_to_upstream l decimal s.config.server.request_timeout_ms exchange) a
    where
      go :
          (r : Result (ℕ × List ℕ × List (String × String)) String)
          → Accounts n h s.metrics
          → Accounts
              (suc n)
              h
              (finished l
                (record s { heap = update s.heap p.upstream decrement_connection_count })
                p
                r
                now).0.metrics
      go (ok (status, body, headers)) (log, m, f, c, k) = (
        upstream_latency_seconds
              (update s.heap p.upstream decrement_connection_count p.upstream).url p.pool_name
            ∷ request_duration_seconds p.method p.pool_name
            ∷ requests_total p.method p.pool_name status false
            ∷ log,
        rw m refl,
        ap suc f,
        c,
        k,
      )
      go (err e) (log, m, f, c, k) = (
        requests_total p.method p.pool_name (error_status l e) false ∷ log,
        rw m refl,
        ap suc f,
        c,
        k,
      )

  verdict-Accounts :
      (s : AppState l) (n h : ℕ) (request : Request) (v : Result (Unit {0}) RateLimited)
      → Accounts n h s.metrics
      → Accounts n h (verdict_decision l s request v).0.metrics
  verdict-Accounts s n h request (ok _) a = a
  verdict-Accounts s n h request (err e) (log, m, f, c, k) = (
    rate_limit_rejections_total (tier_label l request.auth_tier) "rate_exceeded" ∷ log,
    rw m refl,
    f,
    c,
    k,
  )

  abbrev LeavesAccounts : ℕ → ℕ → AppState l × Decision → Type 0
  LeavesAccounts n h x = Accounts n h x.0.metrics

  rate_limit-Accounts :
      (s : AppState l) (n h now : ℕ) (request : Request)
      → Accounts n h s.metrics
      → Accounts n h (rate_limit_middleware l s now request).0.metrics
  unfolding rate_limit_middleware
  rate_limit-Accounts s n h now request a = elim (Option-cases s.rate_limiter) [
    | inl m ↦
        let same : rate_limit_middleware l s now request ≡ (s, run_next request) =
          ground (arith, m) in
        subst (LeavesAccounts n h) (sym same) a
    | inr (limiter, m) ↦ elim (Bool-cases s.config.rate_limit.enabled) [
      | inr off ↦
          let same : rate_limit_middleware l s now request ≡ (s, run_next request) =
            ground (arith, m, off) in
          subst (LeavesAccounts n h) (sym same) a
      | inl on ↦
          let (limiter', verdict) = charged l s now request limiter in
          subst (LeavesAccounts n h) (sym (rate_limit_middleware-on l s now request limiter m on))
            (verdict-Accounts (record s { rate_limiter = some limiter' }) n h request verdict a)
    ]
  ]

  pub layers-Accounts :
      (s : AppState l) (n h now : ℕ) (request : Request)
      → Accounts n h s.metrics
      → Accounts n h (layers l s now request).0.metrics
  layers-Accounts s n h now request a = elim (Decision-cases l (auth_middleware l s request)) [
    | inl (r, e) ↦ subst (LeavesAccounts n h) (sym (layers-respond l s now request r e)) a
    | inr (q, e) ↦
        subst (LeavesAccounts n h) (sym (layers-run_next l s now request q e))
          (rate_limit-Accounts s n h now q a)
  ]
