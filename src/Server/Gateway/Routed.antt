-- ===== src/Server/Gateway/Routed.antt =====
-- src/routing/mod.rs in use: that the pool which the router names is there.
use soroban_gate.Common.{
  ℕ, ◌≡◌, ◌∙◌, ap, sym, refl, subst, Bool, List, [], ◌∷◌, String, Option-cases, inl, inr, map,
  arith, In,
}
use soroban_gate.Common.Outcome.{Result, ok, err, Result-cases}
use soroban_gate.Config.{Config, PoolConfig}
use soroban_gate.Config.Validate.{validate}
use soroban_gate.Config.Validity.{IsNamed, validate_iff}
use soroban_gate.Routing
use soroban_gate.Routing.{Router, route, extract_json_rpc_method}
use soroban_gate.Routing.Rules.{route-IsNamed}
use soroban_gate.Pool.Upstream.{Heap, update, decrement_connection_count}
use soroban_gate.Pool.Pools.{UpstreamPool, create_pools}
use soroban_gate.Pool.Pools.Creation.{create_pools-configured, view, configured}
use soroban_gate.Server.Admin.Laws.{set_upstream_health-found}
use soroban_gate.Server.Admin.{find_in_pools, set_upstream_health}
use soroban_gate.Server.State.{Libraries, AppState, build_state, open_store}
use soroban_gate.Server.Middleware.Laws.{layers-kept}
use soroban_gate.Server.Proxy.{
  Pending, answered, forwarding, finish, Exchange, forward_to_upstream, finished,
}
use soroban_gate.Server.Proxy.Pools.{names}
use soroban_gate.Server.Proxy.Laws.{begin-Frame, Frame, stays}
use soroban_gate.Server.Admin.Kept.{
  cache_flush_handler-CacheOnly, keys_create_handler-KeysOnly, keys_delete_handler-KeysOnly,
}
use soroban_gate.Server.Gateway.{
  Gateway, Traffic, passes_layers, answers, forwards, completes, abandons, checks_health,
  marks_healthy, traffic, administers, flushes_cache, creates_key, revokes_key, Reach, start, later,
}

names-views :
    (now : ℕ) (heap : Heap) (pools : List UpstreamPool) (ps : List PoolConfig) (name : String)
    → map (view heap) pools ≡ map (configured now) ps
    → IsNamed name ps
    → In name (names pools)
names-views now heap pools [] name e m = absurd m
names-views now heap [] (p ∷ ps) name e m = cc
names-views now heap (q ∷ pools) (p ∷ ps) name e m =
    let rest : map (view heap) pools ≡ map (configured now) ps = ground arith in
    let same : q.name ≡ p.name = ground arith in
    elim m [
      | inl here ↦ inl (sym (same ∙ here))
      | inr there ↦ inr (names-views now heap pools ps name rest there)
    ]

module _ (l : Libraries) where
  -- Each method has its pool.
  abbrev pub Routed : AppState l → Type 0
  Routed s = (method : String) → In (route s.router method) (names s.pools)

  pub build_state-Routed :
      (c : Config) (now : ℕ) (s : AppState l)
      → validate c ≡ ok tt
      → build_state l c now ≡ ok s
      → Routed s
  unfolding build_state
  build_state-Routed c now s valid built method = elim (Result-cases (open_store l c)) [
    | inr (x, m) ↦ ground (arith, m, built)
    | inl (store, m) ↦
        let r : s.router ≡ Routing.new c.routing = ground (arith, m, built) in
        let p : s.pools ≡ (create_pools now c).0 = ground (arith, m, built) in
        subst (λ q. In (route q method) (names s.pools)) (sym r)
          (subst (λ ps. In (route (Routing.new c.routing) method) (names ps)) (sym p)
            (names-views now (create_pools now c).1.heap (create_pools now c).0 c.pools
              (route (Routing.new c.routing) method) (create_pools-configured now c).0
              (route-IsNamed c method ((validate_iff c).0 valid))))
  ]

  Frame-Routed : (s s' : AppState l) → Frame l s s' → Routed s → Routed s'
  Frame-Routed s s' f routed method =
      subst (λ r. In (route r method) (names s'.pools)) (sym f.router)
        (subst (λ ns. In (route s.router method) ns) (sym f.names) (routed method))

  finished-Frame :
      (s : AppState l) (heap : Heap) (p : Pending)
      (result : Result (ℕ × List ℕ × List (String × String)) String) (now : ℕ)
      → Frame l s (finished l (record s { heap = heap }) p result now).0
  finished-Frame s heap p (ok (status, body, headers)) now = record {
    config = refl;
    router = refl;
    table = refl;
    names = refl;
    arcs = refl;
  }
  finished-Frame s heap p (err e) now = record {
    config = refl;
    router = refl;
    table = refl;
    names = refl;
    arcs = refl;
  }

  finish-Frame :
      (s : AppState l) (decimal : ℕ → String) (p : Pending) (x : Exchange l) (now : ℕ)
      → Frame l s (finish l s decimal p x now).0
  unfolding finish
  finish-Frame s decimal p x now =
      finished-Frame s (update s.heap p.upstream decrement_connection_count) p
        (forward_to_upstream l decimal s.config.server.request_timeout_ms x) now

  set_upstream_health-Frame :
      (s : AppState l) (decode : String → String) (url : String) (enable : Bool) (now : ℕ)
      → Frame l s (set_upstream_health l decode s url enable now).0
  unfolding set_upstream_health
  set_upstream_health-Frame s decode url enable now =
      elim (Option-cases (find_in_pools s.heap (decode url) s.pools)) [
        | inl m ↦ subst (λ x. Frame l s x) (sym (ground (arith, m))) (stays l s)
        | inr (b, m) ↦
            subst (λ x. Frame l s x)
              (sym (ap (λ x. x.0) (set_upstream_health-found l s decode url enable now b m)))
              (record { config = refl; router = refl; table = refl; names = refl; arcs = refl })
      ]

  Traffic-Routed : {g h : Gateway l} → Traffic l g h → Routed g.state → Routed h.state
  Traffic-Routed {g} (passes_layers now request) routed =
      let (limiter, metrics, e) = layers-kept l g.state now request in subst Routed (sym e) routed
  Traffic-Routed {g} (answers draw now request s r range e) routed =
      Frame-Routed g.state s (begin-Frame l g.state s draw now request (answered r) range e).0
        routed
  Traffic-Routed {g} (forwards draw now request s p range e) routed =
      Frame-Routed g.state s (begin-Frame l g.state s draw now request (forwarding p) range e).0
        routed
  Traffic-Routed {g} (completes decimal before after p x now e) routed =
      Frame-Routed g.state (finish l g.state decimal p x now).0
        (finish-Frame g.state decimal p x now) routed
  Traffic-Routed {g} (abandons before after p e) routed = routed
  Traffic-Routed {g} (checks_health is_success cfg probes) routed = routed
  Traffic-Routed {g} marks_healthy routed = routed

  pub Reach-Routed : (s : AppState l) {g : Gateway l} → Routed s → Reach l s g → Routed g.state
  Reach-Routed s routed start = routed
  Reach-Routed s routed (later r (traffic t)) = Traffic-Routed t (Reach-Routed s routed r)
  Reach-Routed s routed (later {g} r (administers decode url enable now)) =
      Frame-Routed g.state (set_upstream_health l decode g.state url enable now).0
        (set_upstream_health-Frame g.state decode url enable now) (Reach-Routed s routed r)
  Reach-Routed s routed (later {g} r flushes_cache) =
      let (cache, kept) = cache_flush_handler-CacheOnly l g.state in
      subst Routed (sym kept) (Reach-Routed s routed r)
  Reach-Routed s routed (later {g} r (creates_key payload salt now)) =
      let (key_store, kept) = keys_create_handler-KeysOnly l g.state payload salt now in
      subst Routed (sym kept) (Reach-Routed s routed r)
  Reach-Routed s routed (later {g} r (revokes_key id)) =
      let (key_store, kept) = keys_delete_handler-KeysOnly l g.state id in
      subst Routed (sym kept) (Reach-Routed s routed r)
