-- ===== src/Server/Admin/Kept.antt =====
-- src/server/admin.rs: the parts of the state that the handlers for the cache and the keys leave as
-- they were.
use soroban_gate.Common.{
  ℕ, ◌≡◌, refl, Bool, Option, some, String, Option-cases, Bool-cases, inl, inr, arith,
}
use soroban_gate.Common.Text.{is_empty_str}
use soroban_gate.Common.Outcome.{Result, ok, err}
use soroban_gate.Auth
use soroban_gate.Auth.Entry.{KeyEntry}
use soroban_gate.Auth.Store.{StoreError}
use soroban_gate.Cache.Memory
use soroban_gate.Cache.Memory.{MemoryCache}
use soroban_gate.Server.State.{Libraries, AppState, Keys}
use soroban_gate.Server.Admin.{
  cache_flush_handler, keys_create_handler, keys_delete_handler, create_in, created, deleted,
  text_field, unwrap_or,
}

module _ (l : Libraries) where
  -- No more than the cache is another one.
  abbrev pub CacheOnly : AppState l → AppState l → Type 0
  CacheOnly s t = (cache : Option (MemoryCache l.moka)) × (t ≡ record s { cache = cache })

  -- No more than the key store is another one.
  abbrev pub KeysOnly : AppState l → AppState l → Type 0
  KeysOnly s t = (key_store : Option (Keys l)) × (t ≡ record s { key_store = key_store })

  pub cache_flush_handler-CacheOnly : (s : AppState l) → CacheOnly s (cache_flush_handler l s).0
  unfolding cache_flush_handler
  cache_flush_handler-CacheOnly s = elim (Option-cases s.cache) [
    | inl m ↦ (s.cache, ground (arith, m))
    | inr (c, m) ↦ (some (Memory.flush l.moka c), ground (arith, m))
  ]

  created-KeysOnly :
      (s : AppState l) (result : Keys l × Result KeyEntry StoreError)
      → KeysOnly s (created l s result).0
  created-KeysOnly s (store, ok entry) = (some store, refl)
  created-KeysOnly s (store, err e) = (some store, refl)

  create_in-KeysOnly :
      (s : AppState l) (payload : l.serde_json.Value) (raw_key : String) (salt now : ℕ)
      → KeysOnly s (create_in l s payload raw_key salt now).0
  create_in-KeysOnly s payload raw_key salt now = elim (Option-cases s.key_store) [
    | inl m ↦ (s.key_store, ground (arith, m))
    | inr (store, m) ↦
        rw (m, create_in)
          (created-KeysOnly s (
            Auth.create_key l.sqlite l.argon2 l.sha256_text store raw_key
              (unwrap_or l (text_field l payload "tier") "default")
              (unwrap_or l (text_field l payload "label") "") salt now))
  ]

  pub keys_create_handler-KeysOnly :
      (s : AppState l) (payload : l.serde_json.Value) (salt now : ℕ)
      → KeysOnly s (keys_create_handler l s payload salt now).0
  unfolding keys_create_handler
  keys_create_handler-KeysOnly s payload salt now =
      elim (Option-cases (text_field l payload "key")) [
        | inl m ↦ (s.key_store, ground (arith, m))
        | inr (key, m) ↦ elim (Bool-cases (is_empty_str key)) [
          | inl e ↦ (s.key_store, ground (arith, m, e))
          | inr e ↦ rw (m, keys_create_handler) (rw e (create_in-KeysOnly s payload key salt now))
        ]
      ]

  deleted-KeysOnly :
      (s : AppState l) (id : String) (result : Keys l × Result Bool StoreError)
      → KeysOnly s (deleted l s id result).0
  deleted-KeysOnly s id (store, ok found) = (some store, refl)
  deleted-KeysOnly s id (store, err e) = (some store, refl)

  pub keys_delete_handler-KeysOnly :
      (s : AppState l) (id : String) → KeysOnly s (keys_delete_handler l s id).0
  unfolding keys_delete_handler
  keys_delete_handler-KeysOnly s id = elim (Option-cases s.key_store) [
    | inl m ↦ (s.key_store, ground (arith, m))
    | inr (store, m) ↦
        rw (m, keys_delete_handler)
          (deleted-KeysOnly s id (Auth.revoke_key l.sqlite l.argon2 l.sha256_text store id))
  ]
