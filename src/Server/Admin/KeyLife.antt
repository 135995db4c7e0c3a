-- ===== src/Server/Admin/KeyLife.antt =====
-- The life of an API key, from the admin API to the authentication of requests.
use soroban_gate.Common.{
  ℕ, ◌≡◌, ◌∙◌, ap, sym, refl, subst, true, false, Option, some, String, Bool-cases, inl, inr, arith,
}
use soroban_gate.Common.Words.{negsuc}
use soroban_gate.Common.Text.{is_empty_str}
use soroban_gate.Common.Outcome.{Result, ok, Result-cases}
use soroban_gate.Auth
use soroban_gate.Auth.Entry.{KeyEntry}
use soroban_gate.Auth.Extract.{extract_api_key}
use soroban_gate.Auth.Store
use soroban_gate.Auth.Store.{sha256_id}
use soroban_gate.Auth.Store.Laws.{lookup-create_key, lookup-revoke_key}
use soroban_gate.External.Argon2
use soroban_gate.External.Sqlite
use soroban_gate.Server.Http.{Request, auth_error_response}
use soroban_gate.Server.State.{Libraries, AppState}
use soroban_gate.Server.Middleware.{respond, run_next, auth_middleware}
use soroban_gate.Server.Admin.{
  keys_create_handler, keys_delete_handler, text_field, unwrap_or, created, deleted,
}

module _ (l : Libraries) where
  abbrev pub lookup_in : l.sqlite.Connection → String → Result (Option KeyEntry) Store.StoreError
  lookup_in c key = Store.lookup l.sqlite l.argon2 l.sha256_text c key

  auth_middleware-live :
      (s : AppState l) (c : l.sqlite.Connection) (request : Request) (key : String) (e : KeyEntry)
      → s.key_store ≡ some (Auth.KeyStoreDispatch.sqlite c)
      → s.config.auth.enabled ≡ true
      → extract_api_key l.parse_query request.headers request.uri ≡ some key
      → lookup_in c key ≡ ok (some e)
      → e.is_revoked ≡ false
      → auth_middleware l s request
        ≡ run_next (record request {
          auth_tier = some (record { name = e.tier });
          auth_key_id = some (record { id = e.id });
        })
  unfolding auth_middleware Auth.lookup
  auth_middleware-live s c request key e store on found looked live =
      ground (arith, store, on, found, looked, live)

  auth_middleware-revoked :
      (s : AppState l) (c : l.sqlite.Connection) (request : Request) (key : String) (e : KeyEntry)
      → s.key_store ≡ some (Auth.KeyStoreDispatch.sqlite c)
      → s.config.auth.enabled ≡ true
      → extract_api_key l.parse_query request.headers request.uri ≡ some key
      → lookup_in c key ≡ ok (some e)
      → e.is_revoked ≡ true
      → auth_middleware l s request
        ≡ respond (auth_error_response 403 (negsuc 32_002) "API key has been revoked")
  unfolding auth_middleware Auth.lookup
  auth_middleware-revoked s c request key e store on found looked gone =
      ground (arith, store, on, found, looked, gone)

  -- The store after a deletion, and the answer.
  keys_delete_handler-deleted :
      (s : AppState l) (c : l.sqlite.Connection) (id : String)
      → s.key_store ≡ some (Auth.KeyStoreDispatch.sqlite c)
      → keys_delete_handler l s id
        ≡ deleted l s id (
          Auth.KeyStoreDispatch.sqlite (Store.revoke_key l.sqlite l.argon2 l.sha256_text c id).0,
          (Store.revoke_key l.sqlite l.argon2 l.sha256_text c id).1,
        )
  unfolding keys_delete_handler Auth.revoke_key
  keys_delete_handler-deleted s c id store = ground (arith, store)

  keys_create_handler-empty :
      (s : AppState l) (payload : l.serde_json.Value) (salt now : ℕ) (key : String)
      → text_field l payload "key" ≡ some key
      → is_empty_str key ≡ true
      → (keys_create_handler l s payload salt now).1.0 ≡ 400
  unfolding keys_create_handler
  keys_create_handler-empty s payload salt now key given empty = ground (arith, given, empty)

  keys_create_handler-created :
      (s : AppState l) (c : l.sqlite.Connection) (payload : l.serde_json.Value) (salt now : ℕ)
      (key : String)
      → s.key_store ≡ some (Auth.KeyStoreDispatch.sqlite c)
      → text_field l payload "key" ≡ some key
      → is_empty_str key ≡ false
      → let p =
          Store.create_key l.sqlite l.argon2 l.sha256_text c key
            (unwrap_or l (text_field l payload "tier") "default")
            (unwrap_or l (text_field l payload "label") "")
            salt
            now in
        keys_create_handler l s payload salt now
        ≡ created l s (Auth.KeyStoreDispatch.sqlite p.0, p.1)
  unfolding keys_create_handler Auth.create_key
  keys_create_handler-created s c payload salt now key store given filled =
      ground (arith, store, given, filled)

  module _ (db_lawful : Sqlite.IsLawful l.sqlite) (argon2_lawful : Argon2.IsLawful l.argon2) where
    -- With authentication on, where the store accepts a key and the handler that deletes keys answers
    -- 200 for its id, the authentication then answers a request that carries the key with 403,
    -- whether or not requests without a key are allowed.
    pub keys_delete_handler-forbids :
        (s : AppState l) (c : l.sqlite.Connection) (request : Request) (key : String) (e : KeyEntry)
        → s.key_store ≡ some (Auth.KeyStoreDispatch.sqlite c)
        → s.config.auth.enabled ≡ true
        → extract_api_key l.parse_query request.headers request.uri ≡ some key
        → lookup_in c key ≡ ok (some e)
        → (keys_delete_handler l s (sha256_id l.sha256_text key)).1.0 ≡ 200
        → auth_middleware l (keys_delete_handler l s (sha256_id l.sha256_text key)).0 request
          ≡ respond (auth_error_response 403 (negsuc 32_002) "API key has been revoked")
    keys_delete_handler-forbids s c request key e store on found looked answer =
        let id = sha256_id l.sha256_text key in
        let p = Store.revoke_key l.sqlite l.argon2 l.sha256_text c id in
        let handled = keys_delete_handler-deleted s c id store in
        elim (Result-cases p.1) [
          | inr (x, m) ↦ ground (arith, answer, handled, m)
          | inl (b, m) ↦
              let (was, after) =
                lookup-revoke_key l.sqlite l.argon2 l.sha256_text db_lawful argon2_lawful c p.0 key
                  e b looked (ap (λ r. (p.0, r)) m) in
              let t : AppState l = record s {
                key_store = some (Auth.KeyStoreDispatch.sqlite p.0);
              } in
              let reached : (keys_delete_handler l s id).0 ≡ t =
                ap (λ x. x.0) handled
                ∙ ap (λ r. (deleted l s id (Auth.KeyStoreDispatch.sqlite p.0, r)).0) m in
              subst
                (λ u.
                  auth_middleware l u request
                  ≡ respond (auth_error_response 403 (negsuc 32_002) "API key has been revoked"))
                (sym reached)
                (auth_middleware-revoked t p.0 request key (record e { is_revoked = true }) refl on
                  found after refl)
        ]

    -- With authentication on, where creating a key through the admin API answers 201, over a table
    -- that can be read, the authentication then lets a request that carries the key through, marked
    -- with the tier that was asked for.
    pub keys_create_handler-admits :
        (s : AppState l) (c : l.sqlite.Connection) (o : Option KeyEntry)
        (payload : l.serde_json.Value) (salt now : ℕ) (request : Request) (key : String)
        → s.key_store ≡ some (Auth.KeyStoreDispatch.sqlite c)
        → s.config.auth.enabled ≡ true
        → text_field l payload "key" ≡ some key
        → l.sqlite.select_by_id (sha256_id l.sha256_text key) c ≡ ok o
        → extract_api_key l.parse_query request.headers request.uri ≡ some key
        → (keys_create_handler l s payload salt now).1.0 ≡ 201
        → (id : String) × (auth_middleware l (keys_create_handler l s payload salt now).0 request
            ≡ run_next (record request {
              auth_tier =
                  some (record { name = unwrap_or l (text_field l payload "tier") "default" });
              auth_key_id = some (record { id = id });
            }))
    keys_create_handler-admits s c o payload salt now request key store on given readable found
          answer =
        let tier = unwrap_or l (text_field l payload "tier") "default" in
        let label = unwrap_or l (text_field l payload "label") "" in
        let p = Store.create_key l.sqlite l.argon2 l.sha256_text c key tier label salt now in
        elim (Bool-cases (is_empty_str key)) [
          | inl empty ↦
              ground (arith, answer, keys_create_handler-empty s payload salt now key given empty)
          | inr filled ↦
              let handled =
                keys_create_handler-created s c payload salt now key store given filled in
              elim (Result-cases p.1) [
                | inr (x, m) ↦ ground (arith, answer, handled, m)
                | inl (e, m) ↦
                    let (after, same_tier, same_label, live) =
                      lookup-create_key l.sqlite l.argon2 l.sha256_text db_lawful argon2_lawful c
                        p.0 o key tier label salt now e readable (ap (λ r. (p.0, r)) m) in
                    let t : AppState l = record s {
                      key_store = some (Auth.KeyStoreDispatch.sqlite p.0);
                    } in
                    let reached : (keys_create_handler l s payload salt now).0 ≡ t =
                      ap (λ x. x.0) handled
                      ∙ ap (λ r. (created l s (Auth.KeyStoreDispatch.sqlite p.0, r)).0) m in
                    (
                      e.id,
                      ap (λ u. auth_middleware l u request) reached
                          ∙ auth_middleware-live t p.0 request key e refl on found after live
                          ∙ ap
                              (λ n. run_next (record request {
                                auth_tier = some (record { name = n });
                                auth_key_id = some (record { id = e.id });
                              }))
                              same_tier,
                    )
              ]
        ]
