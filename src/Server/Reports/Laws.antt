-- ===== src/Server/Reports/Laws.antt =====
-- src/server/mod.rs: the health report and what a request meets.
use soroban_gate.Common.{
  ℕ, ◌≡◌, ◌↔◌, ◌∙◌, ap, sym, refl, subst, true, false, List, [], ◌∷◌, none, some, ◌⊎◌, Option-cases,
  ◌==◌, String, str_eq, str_eq_refl, In, ◌≢◌, Bool, Bool-cases, inl, inr, arith, All, length,
  filter,
}
use soroban_gate.Common.Words.{pos, negsuc}
use soroban_gate.Common.Outcome.{returned}
use soroban_gate.Pool.Upstream.{Heap, Arc, is_available}
use soroban_gate.Pool.Pools.{UpstreamPool, healthy_upstreams, select_upstream}
use soroban_gate.Pool.Pools.Selection.{select_upstream_total}
use soroban_gate.Server.Http.{Request, integer, json_error_response, Response}
use soroban_gate.Server.State.{Libraries, AppState}
use soroban_gate.Server.Proxy.{
  find_pool, put_pool, forward, answered, start_forward, begin, through_cache,
}
use soroban_gate.Routing.{route, extract_json_rpc_method}
use soroban_gate.Cache.{ttl_for}
use soroban_gate.Server.Proxy.Laws.{InRange, begin-through_cache}
use soroban_gate.Server.Proxy.Pools.{find_pool-name}
use soroban_gate.Server.Reports.{pool_report, health_handler, items}
use soroban_gate.Server.Reports.Reading.{get_member, field, find_named, reported, field_of}

abbrev healthy_count : Heap → UpstreamPool → ℕ
healthy_count heap pool = length (healthy_upstreams heap pool)

find_named-pool_report :
    (heap : Heap) (name : String) (p : UpstreamPool) (ps : List UpstreamPool)
    → find_pool name ps ≡ some p
    → find_named name (items (pool_report heap) ps) ≡ some (pool_report heap p)
unfolding find_named find_pool field get_member pool_report
find_named-pool_report heap name p [] e = cc
find_named-pool_report heap name p (r ∷ rs) e = elim (Bool-cases (str_eq r.name name)) [
  | inl same ↦
      let here : r ≡ p = ground (arith, e, same) in ground (arith, same, ap (pool_report heap) here)
  | inr other ↦
      let later = find_named-pool_report heap name p rs (ground (arith, e, other)) in
      ground (arith, other, later)
]

put_pool-found :
    (name : String) (p : UpstreamPool) (ps : List UpstreamPool)
    → find_pool name ps ≡ some p
    → put_pool p ps ≡ ps
unfolding find_pool put_pool
put_pool-found name p [] e = cc
put_pool-found name p (r ∷ rs) e = elim (Bool-cases (str_eq r.name name)) [
  | inl same ↦
      let here : r ≡ p = ground (arith, e, same) in
      subst (λ q. put_pool q (r ∷ rs) ≡ r ∷ rs) here (ground (arith, str_eq_refl r.name))
  | inr other ↦
      let found : find_pool name rs ≡ some p = ground (arith, e, other) in
      let different : str_eq r.name p.name ≡ false =
        subst (λ n. str_eq r.name n ≡ false) (sym (find_pool-name name p rs found)) other in
      ground (arith, different, put_pool-found name p rs found)
]

pos-injective : {a b : ℕ} → integer (pos a) ≡ integer (pos b) → a ≡ b
pos-injective e = cc

filter-none :
    (test : Arc → Bool) (xs : List Arc) → All (λ x. test x ≡ false) xs → filter test xs ≡ []
filter-none test [] h = refl
filter-none test (x ∷ xs) (off, h) = ground (arith, off, filter-none test xs h)

filter-filled :
    (test : Arc → Bool) (x : Arc) (xs : List Arc)
    → In x xs
    → test x ≡ true
    → length (filter test xs) ≢ 0
filter-filled test x [] m on = absurd m
filter-filled test x (y ∷ ys) (inl e) on =
    let here : test y ≡ true = subst (λ z. test z ≡ true) e on in ground (arith, here)
filter-filled test x (y ∷ ys) (inr m) on = ground (arith, filter-filled test x ys m on)

module _ (l : Libraries) where
  abbrev pub unavailable : Response
  unavailable = json_error_response 503 (negsuc 32_003) "No healthy upstreams available"

  pub reported-healthy :
      (s : AppState l) (now : ℕ) (name : String) (p : UpstreamPool)
      → find_pool name s.pools ≡ some p
      → reported "healthy_upstreams" name (health_handler l s now)
        ≡ some (integer (pos (healthy_count s.heap p)))
  unfolding reported health_handler field get_member
  reported-healthy s now name p e =
      ap (field_of "healthy_upstreams") (find_named-pool_report s.heap name p s.pools e)

  pub forward-selected :
      (s : AppState l) (draw : ℕ → ℕ) (method name : String) (body : List ℕ) (p : UpstreamPool)
      → find_pool name s.pools ≡ some p
      → forward l s draw method name body
        ≡ start_forward l s method name body (select_upstream s.heap draw p)
  unfolding forward
  forward-selected s draw method name body p e = ground (arith, e)

  -- The part of the handler after the cache.
  forward-predicts :
      (s : AppState l) (now : ℕ) (draw : ℕ → ℕ) (method name : String) (body : List ℕ)
      (p : UpstreamPool)
      → InRange draw
      → find_pool name s.pools ≡ some p
      → (reported "healthy_upstreams" name (health_handler l s now) ≡ some (integer (pos 0)))
        ↔ (forward l s draw method name body ≡ returned (s, answered unavailable))
  unfolding healthy_upstreams
  forward-predicts s now draw method name body p range found =
      let counts = reported-healthy s now name p found in
      let goes = forward-selected s draw method name body p found in
      elim (select_upstream_total s.heap draw p range) [
        | inl (nothing, off) ↦
            let zero_count : healthy_count s.heap p ≡ 0 =
              ap length (filter-none (λ a. is_available (s.heap a)) p.upstreams off) in
            (
              λ e.
                  goes
                  ∙ ap (start_forward l s method name body) nothing
                  ∙ ap (λ ps. returned (record s { pools = ps }, answered unavailable))
                      (put_pool-found name p s.pools found),
              λ e. counts ∙ ap (λ n. some (integer (pos n))) zero_count,
            )
        | inr (u, chosen, there, on) ↦
            let some_count = filter-filled (λ a. is_available (s.heap a)) u p.upstreams there on in
            (
              λ e. ground (arith, sym counts ∙ e, some_count),
              λ e. ground (arith, sym e ∙ goes ∙ ap (start_forward l s method name body) chosen),
            )
      ]

  -- The cache plays no part for the method: there is none, or the method has no lifetime.
  abbrev pub IsUncached : AppState l → String → Type 0
  IsUncached s method = (s.cache ≡ none) ⊎ ((ttl_for s.cache_ttl_table method == 0) ≡ true)

  through_cache-uncached :
      (s : AppState l) (draw : ℕ → ℕ) (now : ℕ) (method name : String) (body : List ℕ)
      → IsUncached s method
      → through_cache l s draw now method name body ≡ forward l s draw method name body
  unfolding through_cache
  through_cache-uncached s draw now method name body (inl off) = ground (arith, off)
  through_cache-uncached s draw now method name body (inr z) = elim (Option-cases s.cache) [
    | inl off ↦ ground (arith, off)
    | inr (c, on) ↦ ground (arith, on, z)
  ]

  -- The health report counts no healthy upstream for a pool exactly when a request that is routed
  -- to this pool now, for a method that the cache plays no part for, is answered 503 by the proxy
  -- handler, without an upstream and without any change of the state. Random draws are in range,
  -- and there is a pool of the name.
  pub health_handler-predicts :
      (s : AppState l) (now : ℕ) (draw : ℕ → ℕ) (request : Request) (body : List ℕ)
      (method : String) (p : UpstreamPool)
      → InRange draw
      → request.body ≡ some body
      → extract_json_rpc_method l.serde_json body ≡ some method
      → IsUncached s method
      → find_pool (route s.router method) s.pools ≡ some p
      → (reported "healthy_upstreams" (route s.router method) (health_handler l s now)
          ≡ some (integer (pos 0)))
        ↔ (begin l s draw now request ≡ returned (s, answered unavailable))
  health_handler-predicts s now draw request body method p range read parsed uncached found =
      let name = route s.router method in
      let same : begin l s draw now request ≡ forward l s draw method name body =
        begin-through_cache l s draw now request body method read parsed
        ∙ through_cache-uncached s draw now method name body uncached in
      let (there, back) = forward-predicts s now draw method name body p range found in
      (λ e. same ∙ there e, λ e. back (sym same ∙ e))
