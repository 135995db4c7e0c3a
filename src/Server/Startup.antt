-- ===== src/Server/Startup.antt =====
-- src/server/mod.rs, `serve` up to the wait for a signal, and src/main.rs. Sockets are an interface,
-- and what reading the certificate files gives is an argument. The listeners of a `serve` that has
-- returned no longer matter: the process ends.
pub mod Tls
pub mod Started
use soroban_gate.Common.{ℕ, Bool, true, false, List, Option, none, some, String, if◌then◌else◌}
use soroban_gate.Common.Text.{cat}
use soroban_gate.Common.Outcome.{Result, ok, err}
use soroban_gate.Config.{Config}
use soroban_gate.Config.Load.{RawConfig, load}
use soroban_gate.Config.Validate.{validate}
use soroban_gate.Pool.Health.{Probes, run_health_checks}
use soroban_gate.External.Net.{Net}
use soroban_gate.External.Sqlite.{DbError}
use soroban_gate.Server.State.{Libraries, AppState, build_state}

-- Why `serve` returns before it waits for a signal.
pub data StartError : Type 0 where
  database : DbError → StartError
  listener : String → StartError

module _ (l : Libraries) (net : Net) where
  pub record Listening : Type 0 where
    pub state : AppState l
    pub sockets : net.Sockets

  abbrev bind_to : net.Sockets → String → Result net.Sockets StartError
  bind_to sockets address = elim (net.bind sockets address) [
    | err e ↦ err (listener e)
    | ok bound ↦ ok bound
  ]

  abbrev bind_admin : AppState l → Result net.Sockets StartError → Result Listening StartError
  bind_admin state (err e) = err e
  bind_admin state (ok sockets) = elim (bind_to sockets state.config.server.admin_bind) [
    | err e ↦ err e
    | ok bound ↦ ok (record { state = state; sockets = bound })
  ]

  -- The state, and the listeners of the gateway and of the admin API, in this order.
  unfoldable pub bind_listeners : net.Sockets → Config → ℕ → Result Listening StartError
  unfolding build_state
  bind_listeners sockets config now = elim (build_state l config now) [
    | err e ↦ err (database e)
    | ok state ↦ bind_admin state (bind_to sockets state.config.server.bind)
  ]

  -- The listener of the metrics, bound after the servers of the gateway and of the admin API have
  -- been spawned.
  unfoldable pub bind_metrics : Listening → Result Listening StartError
  bind_metrics listening =
      if listening.state.config.telemetry.metrics_enabled
      then elim (bind_to listening.sockets listening.state.config.server.metrics_bind) [
        | err e ↦ err e
        | ok bound ↦ ok (record listening { sockets = bound })
      ]
      else ok listening

  -- What the spawned server of the gateway comes to: it serves over some sockets, or has failed.
  pub data MainServer : Type 0 where
    serves_plain serves_tls : net.Sockets → MainServer
    failed : String → MainServer

  -- With TLS, the certificates are read and the address is bound again; the listener that `serve`
  -- has bound still belongs to the task, which uses it only without TLS.
  unfoldable pub main_server : net.Sockets → Config → Result (Unit {0}) String → MainServer
  main_server sockets config pem =
      if config.tls.enabled
      then elim pem [
        | err e ↦ failed e
        | ok _ ↦ elim (net.bind sockets config.server.bind) [
          | err e ↦ failed (cat "Main server (TLS) error: " e)
          | ok bound ↦ serves_tls bound
        ]
      ]
      else serves_plain sockets

  pub data MainError : Type 0 where
    configuration : String → MainError
    start : StartError → MainError

  abbrev served : Result Listening StartError → Result Listening MainError
  served (err e) = err (start e)
  served (ok listening) = ok listening

  abbrev checked : net.Sockets → ℕ → Config → Result (Unit {0}) String → Result Listening MainError
  checked sockets now config (err e) = err (configuration e)
  checked sockets now config (ok _) = served (bind_listeners sockets config now)

  -- `main`: load, validate, serve; here as far as the listeners.
  unfoldable pub main :
      (String → Result String String)
      → (String → Result RawConfig String)
      → net.Sockets
      → String
      → ℕ
      → Result Listening MainError
  unfolding load validate bind_listeners
  main read_to_string from_str sockets path now = elim (load read_to_string from_str path) [
    | err e ↦ err (configuration e)
    | ok config ↦ checked sockets now config (validate config)
  ]
