-- ===== src/Server/Gateway/Served.antt =====
-- src/server/proxy.rs: the answers that the handler gives of its own.
use soroban_gate.Common.{
  ℕ, ◌≡◌, sym, refl, subst, List, [], ◌∷◌, Option, none, some, String, str_eq, str_eq_iff, ◌==◌,
  Bool-cases, Option-cases, inl, inr, ◌⊎◌, arith, In,
}
use soroban_gate.Common.Outcome.{Outcome, returned, panicked, ok}
use soroban_gate.Config.{Config}
use soroban_gate.Config.Validate.{validate}
use soroban_gate.Routing.{route, extract_json_rpc_method}
use soroban_gate.Pool.Upstream.{Arc}
use soroban_gate.Pool.Pools.{UpstreamPool, select_upstream}
use soroban_gate.Cache.{ttl_for, compute_cache_key}
use soroban_gate.Cache.Memory
use soroban_gate.Server.Http.{Request, Response, json_error_response}
use soroban_gate.Server.State.{Libraries, AppState, build_state, note_metric, cache_misses_total}
use soroban_gate.Server.Proxy.{
  Begun, answered, forwarding, begin, find_pool, forward, start_forward, after_get, through_cache,
  parse_error,
}
use soroban_gate.Server.Proxy.Pools.{names}
use soroban_gate.Server.Proxy.Laws.{through_cache-get, begin-through_cache}
use soroban_gate.Server.Gateway.{Gateway, Reach}
use soroban_gate.Server.Gateway.Routed.{Routed, build_state-Routed, Reach-Routed}

In-find_pool :
    (name : String) (ps : List UpstreamPool)
    → In name (names ps)
    → (p : UpstreamPool) × (find_pool name ps ≡ some p)
unfolding find_pool
In-find_pool name [] m = absurd m
In-find_pool name (p ∷ ps) m = elim (Bool-cases (str_eq p.name name)) [
  | inl e ↦ (p, ground (arith, e))
  | inr e ↦ elim m [
    | inl same ↦ ground (arith, e, same, str_eq_iff p.name name)
    | inr there ↦ let (q, found) = In-find_pool name ps there in (q, ground (arith, e, found))
  ]
]

module _ (l : Libraries) where
  -- The statuses of the answers that the handler gives of its own.
  abbrev Answers : Outcome (AppState l × Begun) → Type 0
  Answers panicked = Unit
  Answers (returned (s, forwarding p)) = Unit
  Answers (returned (s, answered r)) = (r.status ≡ 200) ⊎ (r.status ≡ 400) ⊎ (r.status ≡ 503)

  start_forward-Answers :
      (s : AppState l) (method pool_name : String) (body : List ℕ)
      (o : Outcome (Option Arc × UpstreamPool))
      → Answers (start_forward l s method pool_name body o)
  unfolding json_error_response
  start_forward-Answers s method pool_name body panicked = tt
  start_forward-Answers s method pool_name body (returned (none, pool)) = inr (inr refl)
  start_forward-Answers s method pool_name body (returned (some u, pool)) = tt

  forward-Answers :
      (s : AppState l) (draw : ℕ → ℕ) (method pool_name : String) (body : List ℕ)
      → In pool_name (names s.pools)
      → Answers (forward l s draw method pool_name body)
  unfolding forward
  forward-Answers s draw method pool_name body there =
      let (p, found) = In-find_pool pool_name s.pools there in
      subst Answers (sym (ground (arith, found)))
        (start_forward-Answers s method pool_name body (select_upstream s.heap draw p))

  after_get-Answers :
      (s : AppState l) (draw : ℕ → ℕ) (method pool_name : String) (body : List ℕ)
      (got : Memory.MemoryCache l.moka × Option (List ℕ))
      → In pool_name (names s.pools)
      → Answers (after_get l s draw method pool_name body got)
  after_get-Answers s draw method pool_name body (cache, some b) there = inl refl
  after_get-Answers s draw method pool_name body (cache, none) there =
      forward-Answers (note_metric l (cache_misses_total method) (record s { cache = some cache }))
        draw method pool_name body there

  through_cache-Answers :
      (s : AppState l) (draw : ℕ → ℕ) (now : ℕ) (method pool_name : String) (body : List ℕ)
      → In pool_name (names s.pools)
      → Answers (through_cache l s draw now method pool_name body)
  unfolding through_cache
  through_cache-Answers s draw now method pool_name body there = elim (Option-cases s.cache) [
    | inl m ↦
        subst Answers (sym (ground (arith, m))) (forward-Answers s draw method pool_name body there)
    | inr (c, m) ↦ elim (Bool-cases (ttl_for s.cache_ttl_table method == 0)) [
      | inl z ↦
          subst Answers (sym (ground (arith, m, z)))
            (forward-Answers s draw method pool_name body there)
      | inr z ↦ subst Answers (sym (through_cache-get l s draw now method pool_name body c m z)) (
          after_get-Answers s draw method pool_name body
            (Memory.get l.moka c (compute_cache_key l.serde_json l.sha256 body) now) there)
    ]
  ]

  begin-unread :
      (s : AppState l) (draw : ℕ → ℕ) (now : ℕ) (request : Request)
      → request.body ≡ none
      → begin l s draw now request ≡ returned (s, answered (parse_error l))
  unfolding begin
  begin-unread s draw now request m = ground (arith, m)

  begin-no_method :
      (s : AppState l) (draw : ℕ → ℕ) (now : ℕ) (request : Request) (body : List ℕ)
      → request.body ≡ some body
      → extract_json_rpc_method l.serde_json body ≡ none
      → begin l s draw now request ≡ returned (s, answered (parse_error l))
  unfolding begin
  begin-no_method s draw now request body m n = ground (arith, m, n)

  begin-Answers :
      (s : AppState l) (draw : ℕ → ℕ) (now : ℕ) (request : Request)
      → Routed l s
      → Answers (begin l s draw now request)
  unfolding begin json_error_response
  begin-Answers s draw now request routed = elim (Option-cases request.body) [
    | inl m ↦ subst Answers (sym (begin-unread s draw now request m)) (inr (inl refl))
    | inr (body, m) ↦ elim (Option-cases (extract_json_rpc_method l.serde_json body)) [
      | inl n ↦ subst Answers (sym (begin-no_method s draw now request body m n)) (inr (inl refl))
      | inr (method, n) ↦
          subst Answers (sym (begin-through_cache l s draw now request body method m n))
            (through_cache-Answers s draw now method (route s.router method) body (routed method))
    ]
  ]

  -- With a configuration that passes validation, in every state that the gateway reaches from its
  -- start, whatever traffic and admin calls went before, an answer of the handler without an
  -- upstream is a hit of the cache, a parse error, or that no upstream is available: it never
  -- answers that a pool is not configured.
  pub Reach-answers :
      (c : Config) (start_time : ℕ) (s s' : AppState l) (g : Gateway l) (draw : ℕ → ℕ) (now : ℕ)
      (request : Request) (r : Response)
      → validate c ≡ ok tt
      → build_state l c start_time ≡ ok s
      → Reach l s g
      → begin l g.state draw now request ≡ returned (s', answered r)
      → (r.status ≡ 200) ⊎ (r.status ≡ 400) ⊎ (r.status ≡ 503)
  Reach-answers c start_time s s' g draw now request r valid built reached e = subst Answers e (
      begin-Answers g.state draw now request
        (Reach-Routed l s (build_state-Routed l c start_time s valid built) reached))
