-- ===== src/Server/Proxy/Laws.antt =====
-- src/server/proxy.rs: what the part of `proxy_handler` before the await leaves as it was.
use soroban_gate.Common.{
  ℕ, ◌<◌, ◌≡◌, ◌∙◌, ap, sym, refl, subst, true, false, List, Option, none, some, String, Bool-cases,
  Option-cases, inl, inr, arith, In, ◌==◌,
}
use soroban_gate.Common.Outcome.{Outcome, returned}
use soroban_gate.Pool.Upstream.{update, increment_connection_count, is_available}
use soroban_gate.Pool.Pools.{UpstreamPool}
use soroban_gate.Pool.Pools.Selection.{select_upstream_total}
use soroban_gate.Pool.Balancer.Choice.{counter_after}
use soroban_gate.Routing.{route, extract_json_rpc_method}
use soroban_gate.Cache.{ttl_for, compute_cache_key}
use soroban_gate.Cache.Memory
use soroban_gate.Server.Http.{Request, json_error_response}
use soroban_gate.Common.Words.{negsuc}
use soroban_gate.Server.State.{Libraries, AppState, note_metric, cache_misses_total}
use soroban_gate.Server.Proxy.Pools.{names, arcs, names-put_pool, arcs-put_pool}
use soroban_gate.Server.Proxy.{
  Begun, answered, forwarding, find_pool, put_pool, forward, after_get, count_hit, cached_response,
  parse_error, through_cache, begin,
}

-- Random draws fall below their bound.
abbrev pub InRange : (ℕ → ℕ) → Type 0
InRange draw = (n : ℕ) → 0 < n → draw n < n

module _ (l : Libraries) where
  -- The parts that no request changes before it waits, and that its pools keep their names and
  -- upstreams.
  pub record Frame (s s' : AppState l) : Type 0 where
    pub config : s'.config ≡ s.config
    pub router : s'.router ≡ s.router
    pub table : s'.cache_ttl_table ≡ s.cache_ttl_table
    pub names : names s'.pools ≡ names s.pools
    pub arcs : arcs s'.pools ≡ arcs s.pools

  -- Only a request that goes on to an upstream changes one: it adds a connection to the count of an
  -- available upstream of a pool.
  abbrev pub Upstreams : AppState l → AppState l → Begun → Type 0
  Upstreams s s' (answered r) = s'.heap ≡ s.heap
  Upstreams s s' (forwarding p) =
      (s'.heap ≡ update s.heap p.upstream increment_connection_count)
      × (q : UpstreamPool) × (find_pool p.pool_name s.pools ≡ some q)
      × In p.upstream q.upstreams
      × (is_available (s.heap p.upstream) ≡ true)

  abbrev pub Begins : AppState l → Outcome (AppState l × Begun) → Type 0
  Begins s o =
      (s' : AppState l) × (b : Begun) × (o ≡ returned (s', b)) × Frame s s' × Upstreams s s' b

  pub stays : (s : AppState l) → Frame s s
  stays s = record { config = refl; router = refl; table = refl; names = refl; arcs = refl }

  Frame-put_pool :
      (s s' : AppState l) (name : String) (p q : UpstreamPool)
      → find_pool name s.pools ≡ some p
      → q.name ≡ p.name
      → q.upstreams ≡ p.upstreams
      → s'.config ≡ s.config
      → s'.router ≡ s.router
      → s'.cache_ttl_table ≡ s.cache_ttl_table
      → s'.pools ≡ put_pool q s.pools
      → Frame s s'
  Frame-put_pool s s' name p q found same_name same config router table pools = record {
    config = config;
    router = router;
    table = table;
    names = ap names pools ∙ names-put_pool q s.pools;
    arcs = ap arcs pools ∙ arcs-put_pool name p q s.pools found same_name same;
  }

  forward-Begins :
      (s : AppState l) (draw : ℕ → ℕ) (method pool_name : String) (body : List ℕ)
      → InRange draw
      → Begins s (forward l s draw method pool_name body)
  unfolding forward
  forward-Begins s draw method pool_name body in_range =
      elim (Option-cases (find_pool pool_name s.pools)) [
        | inl m ↦ (
          s,
          answered (json_error_response 500 (negsuc 31_999) "Pool not configured"),
          ground (arith, m),
          stays s,
          refl,
        )
        | inr (p, m) ↦ elim (select_upstream_total s.heap draw p in_range) [
          | inl (e, none_up) ↦
              let s' : AppState l = record s { pools = put_pool p s.pools } in
              (
                s',
                answered (json_error_response 503 (negsuc 32_003) "No healthy upstreams available"),
                ground (arith, m, e),
                Frame-put_pool s s' pool_name p p m refl refl refl refl refl refl,
                refl,
              )
          | inr (u, e, listed, up) ↦
              let q : UpstreamPool = record p {
                wrr_counter = counter_after p.algorithm p.wrr_counter;
              } in
              let s' : AppState l = record s {
                pools = put_pool q s.pools;
                heap = update s.heap u increment_connection_count;
              } in
              (
                s',
                forwarding
                    (record { upstream = u; method = method; pool_name = pool_name; body = body }),
                ground (arith, m, e),
                Frame-put_pool s s' pool_name p q m refl refl refl refl refl refl,
                (refl, p, m, listed, up),
              )
        ]
      ]

  Frame-trans : (s s' s'' : AppState l) → Frame s s' → Frame s' s'' → Frame s s''
  Frame-trans s s' s'' f g = record {
    config = g.config ∙ f.config;
    router = g.router ∙ f.router;
    table = g.table ∙ f.table;
    names = g.names ∙ f.names;
    arcs = g.arcs ∙ f.arcs;
  }

  Upstreams-from :
      (s t s' : AppState l) (b : Begun)
      → t.heap ≡ s.heap
      → t.pools ≡ s.pools
      → Upstreams t s' b
      → Upstreams s s' b
  Upstreams-from s t s' (answered r) e e' u = u ∙ e
  Upstreams-from s t s' (forwarding p) e e' (heap, q, found, listed, up) = (
    heap ∙ ap (λ h. update h p.upstream increment_connection_count) e,
    q,
    ap (find_pool p.pool_name) (sym e') ∙ found,
    listed,
    ap (λ h. is_available (h p.upstream)) (sym e) ∙ up,
  )

  Begins-from :
      (s t : AppState l) (o : Outcome (AppState l × Begun))
      → Frame s t
      → t.heap ≡ s.heap
      → t.pools ≡ s.pools
      → Begins t o
      → Begins s o
  Begins-from s t o f e e' (s', b, r, g, u) =
      (s', b, r, Frame-trans s t s' f g, Upstreams-from s t s' b e e' u)

  after_get-Begins :
      (s : AppState l) (draw : ℕ → ℕ) (method pool_name : String) (body : List ℕ)
      (got : Memory.MemoryCache l.moka × Option (List ℕ))
      → InRange draw
      → Begins s (after_get l s draw method pool_name body got)
  after_get-Begins s draw method pool_name body (cache, some b) in_range = (
    count_hit l method pool_name (record s { cache = some cache }),
    answered (cached_response l b),
    refl,
    record { config = refl; router = refl; table = refl; names = refl; arcs = refl },
    refl,
  )
  after_get-Begins s draw method pool_name body (cache, none) in_range =
      let t : AppState l =
        note_metric l (cache_misses_total method) (record s { cache = some cache }) in
      Begins-from s t (forward l t draw method pool_name body)
        (record { config = refl; router = refl; table = refl; names = refl; arcs = refl }) refl refl
        (forward-Begins t draw method pool_name body in_range)

  pub through_cache-get :
      (s : AppState l) (draw : ℕ → ℕ) (now : ℕ) (method pool_name : String) (body : List ℕ)
      (c : Memory.MemoryCache l.moka)
      → s.cache ≡ some c
      → (ttl_for s.cache_ttl_table method == 0) ≡ false
      → through_cache l s draw now method pool_name body
        ≡ after_get l s draw method pool_name body
            (Memory.get l.moka c (compute_cache_key l.serde_json l.sha256 body) now)
  unfolding through_cache
  through_cache-get s draw now method pool_name body c m z = ground (arith, m, z)

  through_cache-Begins :
      (s : AppState l) (draw : ℕ → ℕ) (now : ℕ) (method pool_name : String) (body : List ℕ)
      → InRange draw
      → Begins s (through_cache l s draw now method pool_name body)
  unfolding through_cache
  through_cache-Begins s draw now method pool_name body in_range = elim (Option-cases s.cache) [
    | inl m ↦
        subst (Begins s) (sym (ground (arith, m)))
          (forward-Begins s draw method pool_name body in_range)
    | inr (c, m) ↦ elim (Bool-cases (ttl_for s.cache_ttl_table method == 0)) [
      | inl z ↦
          subst (Begins s) (sym (ground (arith, m, z)))
            (forward-Begins s draw method pool_name body in_range)
      | inr z ↦ subst (Begins s) (sym (through_cache-get s draw now method pool_name body c m z)) (
          after_get-Begins s draw method pool_name body
            (Memory.get l.moka c (compute_cache_key l.serde_json l.sha256 body) now) in_range)
    ]
  ]

  pub begin-through_cache :
      (s : AppState l) (draw : ℕ → ℕ) (now : ℕ) (request : Request) (body : List ℕ)
      (method : String)
      → request.body ≡ some body
      → extract_json_rpc_method l.serde_json body ≡ some method
      → begin l s draw now request ≡ through_cache l s draw now method (route s.router method) body
  unfolding begin
  begin-through_cache s draw now request body method m n = ground (arith, m, n)

  -- Given random draws in range, the handler always comes to an answer or to its await, without a
  -- panic. It changes neither the configuration, the router, nor the names and upstreams of the
  -- pools; an answer leaves every upstream alone, and a request that goes on does no more than add
  -- one to the connection count of one upstream, which was available.
  pub begin_total :
      (s : AppState l) (draw : ℕ → ℕ) (now : ℕ) (request : Request)
      → InRange draw
      → Begins s (begin l s draw now request)
  unfolding begin
  begin_total s draw now request in_range = elim (Option-cases request.body) [
    | inl m ↦ (s, answered (parse_error l), ground (arith, m), stays s, refl)
    | inr (body, m) ↦ elim (Option-cases (extract_json_rpc_method l.serde_json body)) [
      | inl n ↦ (s, answered (parse_error l), ground (arith, m, n), stays s, refl)
      | inr (method, n) ↦
          subst (Begins s) (sym (begin-through_cache s draw now request body method m n))
            (through_cache-Begins s draw now method (route s.router method) body in_range)
    ]
  ]

  returned_injective :
      (x y : AppState l × Begun)
      → ◌≡◌ {A = Outcome (AppState l × Begun)} (returned x) (returned y)
      → x ≡ y
  returned_injective x y e = cc

  -- What is known of a run of the handler up to its answer or its await.
  pub begin-Frame :
      (s s' : AppState l) (draw : ℕ → ℕ) (now : ℕ) (request : Request) (b : Begun)
      → InRange draw
      → begin l s draw now request ≡ returned (s', b)
      → Frame s s' × Upstreams s s' b
  begin-Frame s s' draw now request b in_range e =
      let (t, c, e', frame, ups) = begin_total s draw now request in_range in
      subst (λ x. Frame s x.0 × Upstreams s x.0 x.1)
        (returned_injective (t, c) (s', b) (sym e' ∙ e)) (frame, ups)
