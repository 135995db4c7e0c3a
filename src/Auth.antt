-- ===== src/Auth.antt =====
-- src/auth/: API keys, where a request carries one, and the store that knows them, behind its
-- dispatch.
pub mod Entry
pub mod Extract
mod Conformance
pub mod Store
mod Tests
use soroban_gate.Common.{ℕ, Bool, List, Option, String}
use soroban_gate.Common.Outcome.{Result}
use soroban_gate.External.Argon2.{Argon2}
use soroban_gate.External.Sqlite.{Sqlite}
use Entry.{KeyEntry}
use Store
use Store.{StoreError}

-- Marks that the middleware leaves on an authenticated request.
pub record AuthTier : Type 0 where
  pub name : String

pub record AuthKeyId : Type 0 where
  pub id : String

module _ (db : Sqlite) (argon2 : Argon2) (sha256 : String → List ℕ) where
  pub data KeyStoreDispatch : Type 0 where
    sqlite : db.Connection → KeyStoreDispatch

  unfoldable pub lookup : KeyStoreDispatch → String → Result (Option KeyEntry) StoreError
  unfolding Store.lookup
  lookup (sqlite store) raw_key = Store.lookup db argon2 sha256 store raw_key

  unfoldable pub create_key :
      KeyStoreDispatch
      → String
      → String
      → String
      → ℕ
      → ℕ
      → KeyStoreDispatch × Result KeyEntry StoreError
  unfolding Store.create_key
  create_key (sqlite store) raw_key tier label salt now =
      let (store', result) = Store.create_key db argon2 sha256 store raw_key tier label salt now in
      (sqlite store', result)

  unfoldable pub revoke_key : KeyStoreDispatch → String → KeyStoreDispatch × Result Bool StoreError
  unfolding Store.revoke_key
  revoke_key (sqlite store) key_id =
      let (store', result) = Store.revoke_key db argon2 sha256 store key_id in
      (sqlite store', result)

  unfoldable pub list_keys : KeyStoreDispatch → Result (List KeyEntry) StoreError
  unfolding Store.list_keys
  list_keys (sqlite store) = Store.list_keys db argon2 sha256 store
