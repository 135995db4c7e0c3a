-- ===== src/Server/Proxy/Recovered.antt =====
-- src/server/proxy.rs and src/pool/health.rs: requests after the health checks have found an
-- upstream of their pool up again.
use soroban_gate.Common.{
  ℕ, ◌+◌, ◌≤◌, ◌<◌, ◌≡◌, ◌∙◌, ap, sym, subst, inl, inr, Bool, true, false, List, [], ◌∷◌, ◌++◌,
  none, some, Option, Option-cases, ◌==◌, refl, String, str_eq, length, map, In, All, All-In, arith,
  Bool-cases,
}
use soroban_gate.Common.Words.{u32_mod}
use soroban_gate.Common.Outcome.{Outcome, returned}
use soroban_gate.Pool.Upstream.{Arc, is_available}
use soroban_gate.Pool.Pools.{UpstreamPool}
use soroban_gate.Pool.Pools.Creation.{addresses}
use soroban_gate.Pool.Pools.Selection.{select_upstream_total}
use soroban_gate.Pool.Health.{Probes, run_cycles}
use soroban_gate.Pool.Health.Cycle.{Distinct}
use soroban_gate.Pool.Health.Recovery.{Ready, Succeeds, probes_of, run_cycles-available}
use soroban_gate.Routing.{route, extract_json_rpc_method}
use soroban_gate.Cache.{ttl_for}
use soroban_gate.Cache.Memory
use soroban_gate.Server.Http.{Request}
use soroban_gate.Server.State.{Libraries, AppState}
use soroban_gate.Server.Proxy.{
  Begun, answered, forwarding, find_pool, forward, start_forward, through_cache, after_get,
  cached_response, begin,
}
use soroban_gate.Server.Proxy.Laws.{InRange, through_cache-get, begin-through_cache}
use soroban_gate.Server.Reports.Laws.{forward-selected}

In-right : (a : Arc) (xs ys : List Arc) → In a ys → In a (xs ++ ys)
In-right a [] ys m = m
In-right a (x ∷ xs) ys m = inr (In-right a xs ys m)

In-left : (a : Arc) (xs ys : List Arc) → In a xs → In a (xs ++ ys)
In-left a [] ys m = absurd m
In-left a (x ∷ xs) ys (inl e) = inl e
In-left a (x ∷ xs) ys (inr m) = inr (In-left a xs ys m)

In-addresses :
    (name : String) (p : UpstreamPool) (ps : List UpstreamPool) (a : Arc)
    → find_pool name ps ≡ some p
    → In a p.upstreams
    → In a (addresses ps)
unfolding find_pool
In-addresses name p [] a found m = cc
In-addresses name p (r ∷ ps) a found m = elim (Bool-cases (str_eq r.name name)) [
  | inl same ↦
      let here : p ≡ r = ground (arith, found, same) in
      In-left a r.upstreams (addresses ps) (subst (λ q. In a q.upstreams) here m)
  | inr other ↦
      In-right a r.upstreams (addresses ps)
        (In-addresses name p ps a (ground (arith, found, other)) m)
]

module _ (l : Libraries) where
  -- The request waits for an upstream of the pool, or was answered from the cache.
  abbrev pub IsServed : UpstreamPool → Begun → Type 0
  IsServed p (answered r) = (body : List ℕ) × (r ≡ cached_response l body)
  IsServed p (forwarding q) = In q.upstream p.upstreams

  abbrev pub Serves : UpstreamPool → Outcome (AppState l × Begun) → Type 0
  Serves p o = (s : AppState l) × (b : Begun) × (o ≡ returned (s, b)) × IsServed p b

  forward-Serves :
      (s : AppState l) (draw : ℕ → ℕ) (method name : String) (body : List ℕ) (p : UpstreamPool)
      (a : Arc)
      → InRange draw
      → find_pool name s.pools ≡ some p
      → In a p.upstreams
      → is_available (s.heap a) ≡ true
      → Serves p (forward l s draw method name body)
  forward-Serves s draw method name body p a range found m up =
      let goes = forward-selected l s draw method name body p found in
      elim (select_upstream_total s.heap draw p range) [
        | inl (nothing, off) ↦
            let down = All-In (λ x. is_available (s.heap x) ≡ false) p.upstreams a off m in cc
        | inr (u, chosen, there, on) ↦
            (_, _, goes ∙ ap (start_forward l s method name body) chosen, there)
      ]

  after_get-Serves :
      (s : AppState l) (draw : ℕ → ℕ) (method name : String) (body : List ℕ) (p : UpstreamPool)
      (a : Arc) (got : Memory.MemoryCache l.moka × Option (List ℕ))
      → InRange draw
      → find_pool name s.pools ≡ some p
      → In a p.upstreams
      → is_available (s.heap a) ≡ true
      → Serves p (after_get l s draw method name body got)
  after_get-Serves s draw method name body p a (cache, some b) range found m up =
      (_, _, refl, (b, refl))
  after_get-Serves s draw method name body p a (cache, none) range found m up =
      forward-Serves _ draw method name body p a range found m up

  pub through_cache-Serves :
      (s : AppState l) (draw : ℕ → ℕ) (now : ℕ) (method name : String) (body : List ℕ)
      (p : UpstreamPool) (a : Arc)
      → InRange draw
      → find_pool name s.pools ≡ some p
      → In a p.upstreams
      → is_available (s.heap a) ≡ true
      → Serves p (through_cache l s draw now method name body)
  unfolding through_cache
  through_cache-Serves s draw now method name body p a range found m up =
      let through = forward-Serves s draw method name body p a range found m up in
      elim (Option-cases s.cache) [
        | inl off ↦ subst (Serves p) (sym (ground (arith, off))) through
        | inr (c, on) ↦ elim (Bool-cases (ttl_for s.cache_ttl_table method == 0)) [
          | inl z ↦ subst (Serves p) (sym (ground (arith, on, z))) through
          | inr z ↦
              subst (Serves p) (sym (through_cache-get l s draw now method name body c on z))
                (after_get-Serves s draw method name body p a _ range found m up)
        ]
      ]

  module _ (is_success : ℕ → Bool) where
    -- The state after cycles of health checks.
    abbrev pub checked_state : AppState l → List (Probes is_success) → AppState l
    checked_state s cycles = record s {
      heap = run_cycles is_success s.config.health_check cycles s.pools s.heap;
    }

    -- When an upstream's probes have succeeded in as many cycles in a row as the healthy threshold
    -- says (one, for a threshold of zero), and its breaker was not open or had its cooldown behind
    -- it at one of them, then a request that is routed to its pool is not refused: it comes to
    -- wait for an upstream of the pool, or is answered from the cache. Random draws are in range,
    -- the upstream's success counter does not wrap, and no upstream stands in the pools twice.
    pub begin-recovered :
        (s : AppState l) (first : Probes is_success) (later : List (Probes is_success))
        (draw : ℕ → ℕ) (now : ℕ) (request : Request) (body : List ℕ) (method : String)
        (p : UpstreamPool) (a : Arc)
        → InRange draw
        → Distinct (addresses s.pools)
        → find_pool (route s.router method) s.pools ≡ some p
        → In a p.upstreams
        → All (λ x. Succeeds is_success x.0) (probes_of is_success a (first ∷ later))
        → s.config.health_check.healthy_threshold ≤ length (first ∷ later)
        → (s.heap a).mutable_.consecutive_successes + length (first ∷ later) < u32_mod
        → Ready
            (s.heap a).mutable_.circuit_breaker
            (map (λ x. x.1) (probes_of is_success a (first ∷ later)))
        → request.body ≡ some body
        → extract_json_rpc_method l.serde_json body ≡ some method
        → Serves p (begin l (checked_state s (first ∷ later)) draw now request)
    begin-recovered s first later draw now request body method p a range d found m passed enough
          room r read parsed =
        let t = checked_state s (first ∷ later) in
        let up =
          run_cycles-available is_success s.config.health_check first later s.pools s.heap a d
            (In-addresses (route s.router method) p s.pools a found m) passed room enough r in
        subst (Serves p) (sym (begin-through_cache l t draw now request body method read parsed))
          (through_cache-Serves t draw now method (route s.router method) body p a range found m up)
