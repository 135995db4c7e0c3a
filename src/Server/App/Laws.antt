-- ===== src/Server/App/Laws.antt =====
-- src/server/mod.rs: whole requests to the gateway.
use soroban_gate.Common.{
  ℕ, ◌≡◌, ◌≢◌, ap, refl, true, false, Option, none, some, String, Bool-cases, Option-cases, inl,
  inr, ◌⊎◌,
}
use soroban_gate.Common.Words.{negsuc}
use soroban_gate.Common.Outcome.{Result, ok, err, returned}
use soroban_gate.Auth
use soroban_gate.Auth.Entry.{KeyEntry}
use soroban_gate.Auth.Extract.{extract_api_key}
use soroban_gate.Auth.Store.{StoreError}
use soroban_gate.External.Axum.{Axum}
use soroban_gate.Server.Http.{Request, Response, auth_error_response}
use soroban_gate.Server.State.{Libraries, AppState, Keys}
use soroban_gate.Server.Middleware.{
  Decision, respond, unauthenticated, after_lookup, auth_middleware,
}
use soroban_gate.Server.Middleware.Laws.{layers-respond}
use soroban_gate.Server.Proxy.{answered}
use soroban_gate.Server.App.{app, behind}

module _ (l : Libraries) where
  -- The key that a request presents is an entry of the store that is not revoked.
  abbrev pub IsAccepted : Keys l → Request → Type 0
  IsAccepted store request =
      (key : String) × (entry : KeyEntry) × (extract_api_key l.parse_query request.headers
          request.uri
        ≡ some key)
      × (Auth.lookup l.sqlite l.argon2 l.sha256_text store key ≡ ok (some entry))
      × (entry.is_revoked ≡ false)

  abbrev Refuses : Decision → Type 0
  Refuses d =
      (r : Response) × (d ≡ respond r) × ((r.status ≡ 401) ⊎ (r.status ≡ 403) ⊎ (r.status ≡ 500))

  unauthenticated-Refuses :
      (s : AppState l) (request : Request) (message : String)
      → s.config.auth.allow_unauthenticated ≡ false
      → Refuses (unauthenticated l s request message)
  unfolding auth_error_response
  unauthenticated-Refuses s request message strict =
      (auth_error_response 401 (negsuc 32_000) message, rw strict refl, inl refl)

  after_lookup-Refuses :
      (s : AppState l) (request : Request) (found : Result (Option KeyEntry) StoreError)
      → s.config.auth.allow_unauthenticated ≡ false
      → ((entry : KeyEntry) → found ≡ ok (some entry) → entry.is_revoked ≢ false)
      → Refuses (after_lookup l s request found)
  unfolding auth_error_response
  after_lookup-Refuses s request (err e) strict bad = (_, refl, inr (inr refl))
  after_lookup-Refuses s request (ok none) strict bad =
      unauthenticated-Refuses s request "Invalid API key" strict
  after_lookup-Refuses s request (ok (some entry)) strict bad = elim (Bool-cases entry.is_revoked) [
    | inl gone ↦ (
      auth_error_response 403 (negsuc 32_002) "API key has been revoked",
      rw gone refl,
      inr (inl refl),
    )
    | inr live ↦ absurd (bad entry refl live)
  ]

  auth_middleware-Refuses :
      (s : AppState l) (request : Request) (store : Keys l)
      → s.key_store ≡ some store
      → s.config.auth.enabled ≡ true
      → s.config.auth.allow_unauthenticated ≡ false
      → ¬ IsAccepted store request
      → Refuses (auth_middleware l s request)
  unfolding auth_middleware auth_error_response
  auth_middleware-Refuses s request store m enabled strict bad =
      elim (Option-cases (extract_api_key l.parse_query request.headers request.uri)) [
        | inl none_given ↦
            rw (m, auth_middleware)
              (rw (enabled, none_given)
                (unauthenticated-Refuses s request "Authentication required" strict))
        | inr (key, given) ↦
            rw (m, auth_middleware)
              (rw (enabled, given)
                (after_lookup-Refuses s request
                  (Auth.lookup l.sqlite l.argon2 l.sha256_text store key) strict
                  (λ entry found live. bad (key, entry, given, found, live))))
      ]

  -- Where authentication is on and not optional, a request without a key that the store accepts and
  -- that is not revoked is answered 401, 403 or 500, on whatever path, that of the health report
  -- included, and leaves the whole state as it was.
  pub app-refused :
      (axum : Axum) (s : AppState l) (draw : ℕ → ℕ) (now : ℕ) (request : Request) (store : Keys l)
      → s.key_store ≡ some store
      → s.config.auth.enabled ≡ true
      → s.config.auth.allow_unauthenticated ≡ false
      → ¬ IsAccepted store request
      → (r : Response) × (app l axum s draw now request ≡ returned (s, answered r))
        × ((r.status ≡ 401) ⊎ (r.status ≡ 403) ⊎ (r.status ≡ 500))
  unfolding app
  app-refused axum s draw now request store m enabled strict bad =
      let (r, refused, status) = auth_middleware-Refuses s request store m enabled strict bad in
      (r, ap (behind l axum draw now) (layers-respond l s now request r refused), status)
