-- ===== src/Server/Gateway.antt =====
-- The gateway as it runs: the handlers of src/server/ interleave at the await of `proxy_handler`,
-- with the health checker of src/pool/health.rs and the admin API. Each step is what one task does
-- between two awaits. `inflight` holds the requests that wait for an upstream; a request whose
-- future is dropped while it waits (its client has gone) moves to `dropped`, and none of its code
-- runs again. The handler may start on any request, also on one that no layer let through.
pub mod Connections
pub mod Routed
pub mod Served
pub mod Breakers
pub mod Serving
pub mod Counting
pub mod Accounts
use soroban_gate.Common.{ℕ, Bool, ◌≡◌, List, [], ◌∷◌, ◌++◌, String}
use soroban_gate.Common.Outcome.{returned}
use soroban_gate.Config.{Config, HealthCheckConfig}
use soroban_gate.Pool.Health.{Probes, run_health_check_cycle, mark_pools}
use soroban_gate.Server.Http.{Request, Response}
use soroban_gate.Server.State.{Libraries, AppState}
use soroban_gate.Server.Middleware.{layers}
use soroban_gate.Server.Proxy.{Pending, Begun, answered, forwarding, begin, finish, Exchange}
use soroban_gate.Server.Proxy.Laws.{InRange}
use soroban_gate.Server.Admin.{
  set_upstream_health, cache_flush_handler, keys_create_handler, keys_delete_handler,
}

module _ (l : Libraries) where
  pub record Gateway : Type 0 where
    pub state : AppState l
    pub inflight : List Pending
    pub dropped : List Pending

  abbrev pub started : AppState l → Gateway
  started s = record { state = s; inflight = []; dropped = [] }

  -- All but the admin API. `marks_healthy` is the initial marking of the health checker, which may
  -- come after the first requests, since `serve` only spawns the checker.
  pub data Traffic : Gateway → Gateway → Type 1 where
    passes_layers :
        {g : Gateway} (now : ℕ) (request : Request)
        → Traffic g (record g { state = (layers l g.state now request).0 })
    answers :
        {g : Gateway} (draw : ℕ → ℕ) (now : ℕ) (request : Request) (s : AppState l) (r : Response)
        → InRange draw
        → begin l g.state draw now request ≡ returned (s, answered r)
        → Traffic g (record g { state = s })
    forwards :
        {g : Gateway} (draw : ℕ → ℕ) (now : ℕ) (request : Request) (s : AppState l) (p : Pending)
        → InRange draw
        → begin l g.state draw now request ≡ returned (s, forwarding p)
        → Traffic g (record g { state = s; inflight = p ∷ g.inflight })
    completes :
        {g : Gateway} (decimal : ℕ → String) (before after : List Pending) (p : Pending)
        (exchange : Exchange l) (now : ℕ)
        → g.inflight ≡ before ++ p ∷ after
        → Traffic g (record g {
          state = (finish l g.state decimal p exchange now).0;
          inflight = before ++ after;
        })
    abandons :
        {g : Gateway} (before after : List Pending) (p : Pending)
        → g.inflight ≡ before ++ p ∷ after
        → Traffic g (record g { inflight = before ++ after; dropped = p ∷ g.dropped })
    checks_health :
        {g : Gateway} (is_success : ℕ → Bool) (cfg : HealthCheckConfig) (probes : Probes is_success)
        → Traffic g (record g {
          state = record g.state {
            heap = run_health_check_cycle is_success cfg probes g.state.pools g.state.heap;
          };
        })
    marks_healthy :
        {g : Gateway}
        → Traffic g
            (record g { state = record g.state { heap = mark_pools g.state.pools g.state.heap } })

  pub data Step : Gateway → Gateway → Type 1 where
    traffic : {g h : Gateway} → Traffic g h → Step g h
    administers :
        {g : Gateway} (percent_decode : String → String) (encoded_url : String) (enable : Bool)
        (now : ℕ)
        → Step g (record g {
          state = (set_upstream_health l percent_decode g.state encoded_url enable now).0;
        })
    flushes_cache : {g : Gateway} → Step g (record g { state = (cache_flush_handler l g.state).0 })
    creates_key :
        {g : Gateway} (payload : l.serde_json.Value) (salt now : ℕ)
        → Step g (record g { state = (keys_create_handler l g.state payload salt now).0 })
    revokes_key :
        {g : Gateway} (id : String)
        → Step g (record g { state = (keys_delete_handler l g.state id).0 })

  pub data Reach (s : AppState l) : Gateway → Type 1 where
    start : Reach s (started s)
    later : {g h : Gateway} → Reach s g → Step g h → Reach s h
