-- ===== src/Server/Startup/Started.antt =====
-- src/main.rs: the gateway that a successful start leaves behind.
use soroban_gate.Common.{ℕ, ◌≡◌, ◌∙◌, ap, String, inl, inr, ◌⊎◌, arith}
use soroban_gate.Common.Outcome.{Result, ok, Result-cases, returned}
use soroban_gate.Config.{Config}
use soroban_gate.Config.Load.{RawConfig, load}
use soroban_gate.Config.Validate.{validate}
use soroban_gate.External.Net.{Net}
use soroban_gate.Server.Http.{Request, Response}
use soroban_gate.Server.State.{Libraries, AppState, build_state}
use soroban_gate.Server.Proxy.{answered, begin}
use soroban_gate.Server.Gateway.{Gateway, Reach}
use soroban_gate.Server.Gateway.Served.{Reach-answers}
use soroban_gate.Server.Startup.{Listening, bind_listeners, main}

module _ (l : Libraries) (net : Net) where
  bind_listeners-built :
      (sockets : net.Sockets) (config : Config) (now : ℕ) (listening : Listening l net)
      → bind_listeners l net sockets config now ≡ ok listening
      → build_state l config now ≡ ok listening.state
  unfolding bind_listeners
  bind_listeners-built sockets config now listening e =
      elim (Result-cases (build_state l config now)) [
        | inr (x, m) ↦ ground (arith, e, m)
        | inl (state, m) ↦ elim (Result-cases (net.bind sockets state.config.server.bind)) [
          | inr (x, n) ↦ ground (arith, e, m, n)
          | inl (first, n) ↦ elim (Result-cases (net.bind first state.config.server.admin_bind)) [
            | inr (x, o) ↦ ground (arith, e, m, n, o)
            | inl (second, o) ↦
                let same : state ≡ listening.state = ground (arith, e, m, n, o) in m ∙ ap ok same
          ]
        ]
      ]

  -- The configuration of a process that has come as far as its listeners.
  abbrev Configured :
      (String → Result String String)
      → (String → Result RawConfig String)
      → String
      → ℕ
      → AppState l
      → Type 0
  Configured read_to_string from_str path now state =
      (config : Config) × (load read_to_string from_str path ≡ ok config)
      × (validate config ≡ ok tt)
      × (build_state l config now ≡ ok state)

  main-Configured :
      (read_to_string : String → Result String String) (from_str : String → Result RawConfig String)
      (sockets : net.Sockets) (path : String) (now : ℕ) (listening : Listening l net)
      → main l net read_to_string from_str sockets path now ≡ ok listening
      → Configured read_to_string from_str path now listening.state
  unfolding main
  main-Configured read_to_string from_str sockets path now listening e =
      elim (Result-cases (load read_to_string from_str path)) [
        | inr (x, m) ↦ ground (arith, e, m)
        | inl (config, m) ↦ elim (Result-cases (validate config)) [
          | inr (x, n) ↦ ground (arith, e, m, n)
          | inl (u, n) ↦ elim (Result-cases (bind_listeners l net sockets config now)) [
            | inr (x, o) ↦ ground (arith, e, m, n, o)
            | inl (bound, o) ↦
                let same : bound ≡ listening = ground (arith, e, m, n, o) in
                (config, m, n, bind_listeners-built sockets config now listening (o ∙ ap ok same))
          ]
        ]
      ]

  -- When `main` has loaded and validated the configuration and has its listeners, then in every
  -- state that the gateway reaches from there, whatever traffic and admin calls went before, an
  -- answer of the proxy without an upstream is a hit of the cache (200), a parse error (400), or
  -- that no upstream is available (503): it never answers that a pool is not configured.
  pub main-answers :
      (read_to_string : String → Result String String) (from_str : String → Result RawConfig String)
      (sockets : net.Sockets) (path : String) (start_time : ℕ) (listening : Listening l net)
      (g : Gateway l) (s' : AppState l) (draw : ℕ → ℕ) (now : ℕ) (request : Request) (r : Response)
      → main l net read_to_string from_str sockets path start_time ≡ ok listening
      → Reach l listening.state g
      → begin l g.state draw now request ≡ returned (s', answered r)
      → (r.status ≡ 200) ⊎ (r.status ≡ 400) ⊎ (r.status ≡ 503)
  main-answers read_to_string from_str sockets path start_time listening g s' draw now request r
        started reached e =
      let (config, loaded, valid, built) =
        main-Configured read_to_string from_str sockets path start_time listening started in
      Reach-answers l config start_time listening.state s' g draw now request r valid built reached
        e
