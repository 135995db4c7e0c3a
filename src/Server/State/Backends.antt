-- ===== src/Server/State/Backends.antt =====
-- src/server/mod.rs, `build_state`: what the configured backends change.
use soroban_gate.Common.{ℕ, ◌≡◌, refl, Option}
use soroban_gate.Common.Outcome.{Result, ok, err}
use soroban_gate.Config.{Config, RateLimitStore, KeyStore, CacheBackend}
use soroban_gate.Pool.Pools.{create_pools}
use soroban_gate.External.Sqlite.{DbError}
use soroban_gate.Server.State.{Libraries, AppState, Keys, build_state, open_store, assemble}

abbrev pub with_backends : RateLimitStore → KeyStore → CacheBackend → Config → Config
with_backends store key_store backend c = record c {
  rate_limit = record c.rate_limit { store = store };
  auth = record c.auth { key_store = key_store };
  cache = record c.cache { backend = backend };
}

module _ (l : Libraries) where
  -- The same failure, or states that differ in the stored configuration at most.
  abbrev pub SameServices : Result (AppState l) DbError → Result (AppState l) DbError → Type 0
  SameServices (ok s) (ok t) = record s { config = t.config } ≡ t
  SameServices (err e) (err f) = e ≡ f
  SameServices _ _ = ⊥

  assemble-SameServices :
      (store : RateLimitStore) (key_store : KeyStore) (backend : CacheBackend) (c : Config)
      (now : ℕ) (keys : Result (Option (Keys l)) DbError)
      → SameServices
          (assemble l (with_backends store key_store backend c) now keys)
          (assemble l c now keys)
  unfolding create_pools
  assemble-SameServices store key_store backend c now (err e) = refl
  assemble-SameServices store key_store backend c now (ok k) = refl

  -- A start with other backends for the rate limiter, the keys and the cache fails where it fails
  -- with these, and otherwise gives the same state but for the stored configuration: rate limits
  -- and cached responses are kept in memory and keys in SQLite, also where Redis is configured.
  pub build_state-SameServices :
      (store : RateLimitStore) (key_store : KeyStore) (backend : CacheBackend) (c : Config)
      (now : ℕ)
      → SameServices
          (build_state l (with_backends store key_store backend c) now)
          (build_state l c now)
  unfolding build_state
  build_state-SameServices store key_store backend c now =
      assemble-SameServices store key_store backend c now (open_store l c)
