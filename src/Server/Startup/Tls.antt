-- ===== src/Server/Startup/Tls.antt =====
-- src/server/mod.rs, `serve`: the server of the gateway with TLS.
use soroban_gate.Common.{ℕ, ◌≡◌, ap, sym, subst, true, String, Bool-cases, inl, inr, ◌⊎◌, arith}
use soroban_gate.Common.Text.{cat}
use soroban_gate.Common.Outcome.{Result, ok, err, Result-cases}
use soroban_gate.Config.{Config}
use soroban_gate.External.Net
use soroban_gate.External.Net.{Net}
use soroban_gate.Server.State.{Libraries, AppState, build_state, open_store}
use soroban_gate.Server.Startup.{Listening, bind_listeners, bind_metrics, main_server, failed}

module _ (l : Libraries) (net : Net) where
  build_state-server :
      (config : Config) (now : ℕ) (state : AppState l)
      → build_state l config now ≡ ok state
      → state.config.server ≡ config.server
  unfolding build_state
  build_state-server config now state e = elim (Result-cases (open_store l config)) [
    | inl (store, m) ↦ ground (arith, e, m)
    | inr (x, m) ↦ ground (arith, e, m)
  ]

  bind_listeners-held :
      (sockets : net.Sockets) (config : Config) (now : ℕ) (listening : Listening l net)
      → Net.IsLawful net
      → bind_listeners l net sockets config now ≡ ok listening
      → net.held listening.sockets config.server.bind ≡ true
  unfolding bind_listeners
  bind_listeners-held sockets config now listening lawful e =
      elim (Result-cases (build_state l config now)) [
        | inr (x, m) ↦ ground (arith, e, m)
        | inl (state, m) ↦ elim (Result-cases (net.bind sockets state.config.server.bind)) [
          | inr (x, n) ↦ ground (arith, e, m, n)
          | inl (first, n) ↦ elim (Result-cases (net.bind first state.config.server.admin_bind)) [
            | inr (x, o) ↦ ground (arith, e, m, n, o)
            | inl (second, o) ↦
                let bound : second ≡ listening.sockets = ground (arith, e, m, n, o) in
                let same : state.config.server.bind ≡ config.server.bind =
                  ap (λ x. x.bind) (build_state-server config now state m) in
                subst (λ a. net.held listening.sockets a ≡ true) same
                  (subst (λ q. net.held q state.config.server.bind ≡ true) bound
                    (lawful.bind-keeps first second state.config.server.admin_bind
                      state.config.server.bind o
                      (lawful.bind-held sockets first state.config.server.bind n)))
          ]
        ]
      ]

  -- The sockets while the server of the gateway starts: the metrics may have their listener or not.
  abbrev pub IsStarting : Listening l net → net.Sockets → Type 0
  IsStarting listening sockets =
      (sockets ≡ listening.sockets)
      ⊎ ((later : Listening l net) × (bind_metrics l net listening ≡ ok later)
          × (sockets ≡ later.sockets))

  IsStarting-held :
      (listening : Listening l net) (sockets : net.Sockets) (address : String)
      → Net.IsLawful net
      → IsStarting listening sockets
      → net.held listening.sockets address ≡ true
      → net.held sockets address ≡ true
  unfolding bind_metrics
  IsStarting-held listening sockets address lawful (inl e) held =
      subst (λ q. net.held q address ≡ true) (sym e) held
  IsStarting-held listening sockets address lawful (inr (later, bound, e)) held =
      subst (λ q. net.held q address ≡ true) (sym e)
        (elim (Bool-cases listening.state.config.telemetry.metrics_enabled) [
          | inr off ↦
              let same : listening ≡ later = ground (arith, bound, off) in
              subst (λ (x : Listening l net). net.held x.sockets address ≡ true) same held
          | inl on ↦
              elim (Result-cases
                (net.bind listening.sockets listening.state.config.server.metrics_bind)) [
                  | inr (x, n) ↦ ground (arith, bound, on, n)
                  | inl (third, n) ↦
                      let same : third ≡ later.sockets = ground (arith, bound, on, n) in
                      subst (λ q. net.held q address ≡ true) same
                        (lawful.bind-keeps listening.sockets third
                          listening.state.config.server.metrics_bind address n held)
                ]
        ])

  -- With TLS enabled and an address that names a port, the server of the gateway never serves:
  -- `serve` has the listener of this very address, and to bind it again fails. This holds whether
  -- or not the metrics have their listener yet, and whatever reading the certificates gives.
  pub main_server-tls_fails :
      (sockets starting : net.Sockets) (config : Config) (now : ℕ) (listening : Listening l net)
      (pem : Result (Unit {0}) String)
      → Net.IsLawful net
      → bind_listeners l net sockets config now ≡ ok listening
      → IsStarting listening starting
      → config.tls.enabled ≡ true
      → net.names_port config.server.bind ≡ true
      → (message : String) × (main_server l net starting config pem ≡ failed message)
  unfolding main_server
  main_server-tls_fails sockets starting config now listening (err e) lawful bound begins tls port =
      (e, ground (arith, tls))
  main_server-tls_fails sockets starting config now listening (ok _) lawful bound begins tls port =
      let held : net.held starting config.server.bind ≡ true =
        IsStarting-held listening starting config.server.bind lawful begins
          (bind_listeners-held sockets config now listening lawful bound) in
      elim (Result-cases (net.bind starting config.server.bind)) [
        | inl (t, m) ↦ absurd (lawful.bind-in_use starting t config.server.bind port held m)
        | inr (e, m) ↦ (cat "Main server (TLS) error: " e, ground (arith, tls, m))
      ]
