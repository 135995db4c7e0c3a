-- ===== src/Server/Gateway/Serving.antt =====
-- The gateway as its clients drive it: requests through the layers and the routes of
-- `build_router`, admin requests through those of src/server/admin.rs, and the tasks in the
-- background.
use soroban_gate.Common.{
  ℕ, ◌≡◌, ◌≢◌, ◌∙◌, ap, sym, refl, subst, Bool, List, ◌∷◌, ◌++◌, String, inl, inr, ◌⊎◌, arith,
}
use soroban_gate.Common.Outcome.{returned}
use soroban_gate.Config.{HealthCheckConfig}
use soroban_gate.Pool.CircuitBreaker.{closed}
use soroban_gate.Pool.Upstream.{Arc}
use soroban_gate.Pool.Health.{Probes, run_health_check_cycle, mark_pools}
use soroban_gate.External.Axum
use soroban_gate.External.Axum.{Axum, Found, matched, method_not_allowed, not_found}
use soroban_gate.Server.Http.{Request, Response, json_response}
use soroban_gate.Server.State.{Libraries, AppState}
use soroban_gate.Server.Middleware.{Decision, respond, run_next, layers}
use soroban_gate.Server.Proxy.{Pending, Begun, answered, forwarding, begin, finish, Exchange}
use soroban_gate.Server.Proxy.Laws.{InRange}
use soroban_gate.Server.Reports.{health_handler}
use soroban_gate.Server.App.{Endpoint, health, gateway_routes, app, behind, dispatch}
use soroban_gate.Server.Admin.Dispatch.{AdminRequest, admin_app}
use soroban_gate.Server.Admin.Effects.{Effects, admin_app-Effects}
use soroban_gate.Server.Gateway.{
  Gateway, started, passes_layers, answers, forwards, completes, abandons, checks_health,
  marks_healthy, traffic, flushes_cache, creates_key, Reach, start, later,
}
use soroban_gate.Server.Gateway.Breakers.{Traffics, done, more, Traffics-not_closed}

module _ (l : Libraries) (axum : Axum) where
  pub data Serving : Gateway l → Gateway l → Type 1 where
    is_answered :
        {g : Gateway l} (draw : ℕ → ℕ) (now : ℕ) (request : Request) (s : AppState l) (r : Response)
        → InRange draw
        → app l axum g.state draw now request ≡ returned (s, answered r)
        → Serving g (record g { state = s })
    is_forwarded :
        {g : Gateway l} (draw : ℕ → ℕ) (now : ℕ) (request : Request) (s : AppState l) (p : Pending)
        → InRange draw
        → app l axum g.state draw now request ≡ returned (s, forwarding p)
        → Serving g (record g { state = s; inflight = p ∷ g.inflight })
    is_completed :
        {g : Gateway l} (decimal : ℕ → String) (before after : List Pending) (p : Pending)
        (exchange : Exchange l) (now : ℕ)
        → g.inflight ≡ before ++ p ∷ after
        → Serving g (record g {
          state = (finish l g.state decimal p exchange now).0;
          inflight = before ++ after;
        })
    is_abandoned :
        {g : Gateway l} (before after : List Pending) (p : Pending)
        → g.inflight ≡ before ++ p ∷ after
        → Serving g (record g { inflight = before ++ after; dropped = p ∷ g.dropped })
    upstreams_checked :
        {g : Gateway l} (is_success : ℕ → Bool) (cfg : HealthCheckConfig)
        (probes : Probes is_success)
        → Serving g (record g {
          state = record g.state {
            heap = run_health_check_cycle is_success cfg probes g.state.pools g.state.heap;
          };
        })
    upstreams_marked :
        {g : Gateway l}
        → Serving g
            (record g { state = record g.state { heap = mark_pools g.state.pools g.state.heap } })
    is_administered :
        {g : Gateway l} (percent_decode : String → String) (request : AdminRequest l) (salt now : ℕ)
        → Serving g
            (record g { state = (admin_app l axum percent_decode g.state request salt now).0 })

  pub data Serves (g : Gateway l) : Gateway l → Type 1 where
    begins : Serves g g
    goes_on : {h k : Gateway l} → Serves g h → Serving h k → Serves g k

  -- A request that came to the end of its first part either stopped at the layers, the health report
  -- or the method, or ran the proxy behind the layers.
  abbrev Runs : AppState l → (ℕ → ℕ) → ℕ → AppState l → Begun → Type 0
  Runs behind_layers draw now s b =
      ((s ≡ behind_layers) × (r : Response) × (b ≡ answered r))
      ⊎ ((q : Request) × (begin l behind_layers draw now q ≡ returned (s, b)))

  dispatch-Runs :
      (t s : AppState l) (draw : ℕ → ℕ) (now : ℕ) (q : Request) (b : Begun) (found : Found Endpoint)
      → dispatch l axum t draw now q found ≡ returned (s, b)
      → Runs t draw now s b
  dispatch-Runs t s draw now q b (matched health captures) e =
      inl (ground (arith, e), json_response 200 (health_handler l t now), ground (arith, e))
  dispatch-Runs t s draw now q b method_not_allowed e =
      inl (ground (arith, e), axum.method_not_allowed_response, ground (arith, e))
  dispatch-Runs t s draw now q b not_found e = inr (q, e)

  behind-Runs :
      (s : AppState l) (draw : ℕ → ℕ) (now : ℕ) (d : AppState l × Decision) (b : Begun)
      → behind l axum draw now d ≡ returned (s, b)
      → Runs d.0 draw now s b
  behind-Runs s draw now (t, respond r) b e = inl (ground (arith, e), r, ground (arith, e))
  behind-Runs s draw now (t, run_next q) b e =
      dispatch-Runs t s draw now q b (axum.find gateway_routes q.method q.uri.path) e

  app-Runs :
      (g : Gateway l) (s : AppState l) (draw : ℕ → ℕ) (now : ℕ) (request : Request) (b : Begun)
      → app l axum g.state draw now request ≡ returned (s, b)
      → Runs (layers l g.state now request).0 draw now s b
  unfolding app
  app-Runs g s draw now request b e = behind-Runs s draw now (layers l g.state now request) b e

  answered-Traffics :
      (g : Gateway l) (s : AppState l) (draw : ℕ → ℕ) (now : ℕ) (request : Request) (r : Response)
      → InRange draw
      → app l axum g.state draw now request ≡ returned (s, answered r)
      → Traffics l g (record g { state = s })
  answered-Traffics g s draw now request r range e =
      elim (app-Runs g s draw now request (answered r) e) [
        | inl (same, _, other) ↦
            subst (λ t. Traffics l g (record g { state = t })) (sym same)
              (more (passes_layers now request) done)
        | inr (q, ran) ↦
            more (passes_layers now request) (more (answers draw now q s r range ran) done)
      ]

  forwarded-Traffics :
      (g : Gateway l) (s : AppState l) (draw : ℕ → ℕ) (now : ℕ) (request : Request) (p : Pending)
      → InRange draw
      → app l axum g.state draw now request ≡ returned (s, forwarding p)
      → Traffics l g (record g { state = s; inflight = p ∷ g.inflight })
  forwarded-Traffics g s draw now request p range e =
      elim (app-Runs g s draw now request (forwarding p) e) [
        | inl (same, r, other) ↦ ground (arith, other)
        | inr (q, ran) ↦
            more (passes_layers now request) (more (forwards draw now q s p range ran) done)
      ]

  -- A step is one of the gateway's own traffic, or a request to the admin API.
  Serving-Traffics :
      {g h : Gateway l}
      → Serving g h
      → Traffics l g h
        ⊎ ((decode : String → String) × (request : AdminRequest l) × (salt : ℕ) × (now : ℕ) × (h
              ≡ record g { state = (admin_app l axum decode g.state request salt now).0 }))
  Serving-Traffics {g} (is_answered draw now request s r range e) =
      inl (answered-Traffics g s draw now request r range e)
  Serving-Traffics {g} (is_forwarded draw now request s p range e) =
      inl (forwarded-Traffics g s draw now request p range e)
  Serving-Traffics (is_completed decimal before after p exchange now e) =
      inl (more (completes decimal before after p exchange now e) done)
  Serving-Traffics (is_abandoned before after p e) = inl (more (abandons before after p e) done)
  Serving-Traffics (upstreams_checked is_success cfg probes) =
      inl (more (checks_health is_success cfg probes) done)
  Serving-Traffics upstreams_marked = inl (more marks_healthy done)
  Serving-Traffics (is_administered decode request salt now) =
      inr (decode, request, salt, now, refl)

  Traffics-Reach : (s : AppState l) {g h : Gateway l} → Reach l s g → Traffics l g h → Reach l s h
  Traffics-Reach s r done = r
  Traffics-Reach s r (more t ts) = Traffics-Reach s (later r (traffic t)) ts

  administered-Reach :
      (s : AppState l) (g : Gateway l) (request : AdminRequest l) (salt now : ℕ)
      (after : AppState l)
      → Reach l s g
      → Effects l g.state request salt now after
      → Reach l s (record g { state = after })
  administered-Reach s g request salt now after r (inl same) =
      subst (λ t. Reach l s (record g { state = t })) (sym same) r
  administered-Reach s g request salt now after r (inr (inl (at, takes, same))) =
      subst (λ t. Reach l s (record g { state = t })) (sym same) (later r flushes_cache)
  administered-Reach s g request salt now after r (inr (inr (at, takes, payload, m, same))) =
      subst (λ t. Reach l s (record g { state = t })) (sym same)
        (later r (creates_key payload salt now))

  -- Every state that the gateway comes to by requests of its clients, requests to its admin API and
  -- its tasks in the background, is one that the handlers reach.
  pub Serves-Reach :
      (s : AppState l) {g : Gateway l} → Axum.IsLawful axum → Serves (started l s) g → Reach l s g
  Serves-Reach s lawful begins = start
  Serves-Reach s lawful (goes_on {h} {k} before step) =
      let r = Serves-Reach s lawful before in
      elim (Serving-Traffics step) [
        | inl ts ↦ Traffics-Reach s r ts
        | inr (decode, request, salt, now, e) ↦
            subst (λ x. Reach l s x) (sym e)
              (administered-Reach s h request salt now _ r
                (admin_app-Effects l axum decode h.state request salt now lawful).0)
      ]

  -- Once the breaker of an upstream is not closed, nothing closes it again while the gateway runs:
  -- no request, successful or not, no health check or initial marking, and no request to the admin API, since axum 0.7
  -- does not lead there.
  pub Serves-not_closed :
      {g h : Gateway l} (a : Arc)
      → Axum.IsLawful axum
      → Serves g h
      → (g.state.heap a).mutable_.circuit_breaker.state ≢ closed
      → (h.state.heap a).mutable_.circuit_breaker.state ≢ closed
  Serves-not_closed a lawful begins n = n
  Serves-not_closed a lawful (goes_on {h} before step) n =
      let still = Serves-not_closed a lawful before n in
      elim (Serving-Traffics step) [
        | inl ts ↦ Traffics-not_closed l a ts still
        | inr (decode, request, salt, now, e) ↦
            let kept = (admin_app-Effects l axum decode h.state request salt now lawful).1 in
            subst (λ b. b ≢ closed)
              (sym (
                ap (λ x. (x.state.heap a).mutable_.circuit_breaker.state) e
                ∙ ap (λ heap. (heap a).mutable_.circuit_breaker.state) kept))
              still
      ]
