-- ===== src/Server/State.antt =====
-- src/server/mod.rs, `AppState` and `build_state`. The state is shared by every handler through
-- `Arc`s; here it is one record, with the cells behind the pools' `Arc`s in the field `heap`. The
-- metrics registry is the log of what was counted and observed; the durations are left out.
pub mod Backends
use soroban_gate.Common.{ℕ, Bool, List, [], ◌∷◌, Option, none, some, String, if◌then◌else◌}
use soroban_gate.Common.HashMap
use soroban_gate.Common.Outcome.{Result, ok, err}
use soroban_gate.Config.{Config, KeyTier}
use soroban_gate.Pool.Upstream.{Heap}
use soroban_gate.Pool.Pools.{UpstreamPool, create_pools}
use soroban_gate.Routing
use soroban_gate.Routing.{Router}
use soroban_gate.RateLimit.{RateLimiterDispatch}
use soroban_gate.RateLimit.TokenBucket
use soroban_gate.Cache
use soroban_gate.Cache.{TtlTable}
use soroban_gate.Cache.Memory.{MemoryCache, CachedValue}
use soroban_gate.Cache.Memory
use soroban_gate.Auth.{KeyStoreDispatch}
use soroban_gate.External.SerdeJson.{SerdeJson}
use soroban_gate.External.Moka.{Moka}
use soroban_gate.External.Argon2.{Argon2}
use soroban_gate.External.Sqlite.{Sqlite, DbError}

-- The third-party crates that the server's handlers reach.
pub record Libraries : Type 1 where
  pub serde_json : SerdeJson
  pub moka : Moka CachedValue
  pub sqlite : Sqlite
  pub argon2 : Argon2
  -- `Sha256::digest` of bytes, and of the bytes of a text.
  pub sha256 : List ℕ → List ℕ
  pub sha256_text : String → List ℕ
  -- `form_urlencoded::parse`.
  pub parse_query : String → List (String × String)
  -- `Connection::open` and the creation of the table.
  pub open_database : String → Result sqlite.Connection DbError

pub data MetricEvent : Type 0 where
  cache_hits_total cache_misses_total : String → MetricEvent
  requests_total : String → String → ℕ → Bool → MetricEvent
  request_duration_seconds upstream_latency_seconds : String → String → MetricEvent
  rate_limit_rejections_total : String → String → MetricEvent

unfoldable pub collect_tiers : List KeyTier → List (String × KeyTier) → List (String × KeyTier)
collect_tiers [] tiers = tiers
collect_tiers (t ∷ ts) tiers = collect_tiers ts (HashMap.insert t.name t tiers)

module _ (l : Libraries) where
  abbrev pub Keys : Type 0
  Keys = KeyStoreDispatch l.sqlite l.argon2 l.sha256_text

  pub record AppState : Type 0 where
    pub config : Config
    pub start_time : ℕ
    pub pools : List UpstreamPool
    pub heap : Heap
    pub router : Router
    pub cache : Option (MemoryCache l.moka)
    pub cache_ttl_table : TtlTable
    pub rate_limiter : Option RateLimiterDispatch
    pub key_store : Option Keys
    pub auth_tiers : List (String × KeyTier)
    pub metrics : Option (List MetricEvent)

  abbrev pub open_store : Config → Result (Option Keys) DbError
  open_store config =
      if config.auth.enabled
      then (elim (l.open_database config.auth.db_path) [
        | err e ↦ err e
        | ok connection ↦ ok (some (KeyStoreDispatch.sqlite connection))
      ])
      else ok none

  -- `mem::take` leaves the stored configuration without tiers.
  abbrev pub assemble : Config → ℕ → Result (Option Keys) DbError → Result AppState DbError
  assemble config now (err e) = err e
  assemble config now (ok key_store) =
      let (pools, memory) = create_pools now config in
      ok (record {
        config = record config { auth = record config.auth { tiers = [] } };
        start_time = now;
        pools = pools;
        heap = memory.heap;
        router = Routing.new config.routing;
        cache =
            if config.cache.enabled
            then some (Memory.new l.moka config.cache.max_memory_mb)
            else none;
        cache_ttl_table = Cache.new config.cache.rules;
        rate_limiter =
            if config.rate_limit.enabled
            then some (RateLimiterDispatch.memory TokenBucket.new)
            else none;
        key_store = key_store;
        auth_tiers = collect_tiers config.auth.tiers [];
        metrics = if config.telemetry.metrics_enabled then some [] else none;
      })

  -- The key store is the only part that can fail to start.
  unfoldable pub build_state : Config → ℕ → Result AppState DbError
  build_state config now = assemble config now (open_store config)

  abbrev pub noted : MetricEvent → Option (List MetricEvent) → Option (List MetricEvent)
  noted e none = none
  noted e (some log) = some (e ∷ log)

  -- `if let Some(ref m) = state.metrics { … }`; the latest event comes first.
  abbrev pub note_metric : MetricEvent → AppState → AppState
  note_metric e s = record s { metrics = noted e s.metrics }
