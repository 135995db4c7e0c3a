-- ===== src/Server/Tests.antt =====
-- A concrete gateway with two pools, on which the theorems on src/server/ are tried.
mod Traffic
mod Failover
mod Keys
mod Whole
mod Lifecycle
mod Serving
mod Recovery
mod Served
use soroban_gate.Common.{
  ℕ, ◌+◌, ◌%◌, ◌≡◌, ◌≢◌, ◌⊎◌, true, false, List, [], ◌∷◌, Option, none, some, String, if◌then◌else◌,
  refl, str_eq,
}
use soroban_gate.Common.{◌*◌, ◌-◌, ◌≤◌, ◌<◌, ◌==◌, arith, Bool}
use soroban_gate.Server.Middleware.{respond}
use soroban_gate.Auth.Extract.{from_x_api_key}
use soroban_gate.Server.Http.{auth_error_response}
use soroban_gate.Server.Admin.{keys_create_handler, keys_delete_handler, text_field, unwrap_or}
use soroban_gate.Server.Admin.KeyLife.{
  lookup_in, keys_create_handler-admits, keys_delete_handler-forbids,
}
use soroban_gate.External.Instances.{table_sqlite-IsLawful, plain_argon2-IsLawful}
use soroban_gate.RateLimit.TokenBucket.Bounds.{InOrder, Uniform}
use soroban_gate.RateLimit.TokenBucket.{token}
use soroban_gate.Server.Middleware.Rates.{calls, through, through-le}
use soroban_gate.Server.Proxy.Caching.{key_of, stored_in, begin-stored}
use soroban_gate.Server.Proxy.{cached_response}
use soroban_gate.Common.Words.{u64_mod}
use soroban_gate.Common.Outcome.{Outcome, returned, panicked, Result, ok, err}
use soroban_gate.Config.Tests.{two_pools, two_pools_accepted}
use soroban_gate.Auth
use soroban_gate.Auth.Entry.{KeyEntry}
use soroban_gate.Auth.Extract.{extract_api_key, from_authorization}
use soroban_gate.Auth.Store
use soroban_gate.Auth.Store.{sha256_id, hex}
use soroban_gate.Common.Text.{strip_prefix}
use soroban_gate.RateLimit
use soroban_gate.Pool.CircuitBreaker
use soroban_gate.Pool.CircuitBreaker.{closed, open_}
use soroban_gate.Pool.Balancer.{select, weighted_round_robin, weighted_from}
use soroban_gate.Pool.Upstream.{Arc, Heap, is_available, healthy, increment_connection_count}
use soroban_gate.Pool.Upstream
use soroban_gate.Common.HashMap
use soroban_gate.Common.Words.{negsuc}
use soroban_gate.Pool.Pools.{
  create_pools, create_pools_from, create_pool, create_upstreams, select_upstream,
  healthy_upstreams,
}
use soroban_gate.Routing
use soroban_gate.Routing.{route, insert_rules, extract_json_rpc_method}
use soroban_gate.RateLimit.{RateLimiterDispatch}
use soroban_gate.RateLimit.TokenBucket
use soroban_gate.Common.Float.{as_secs, round, ulp, ulp_from, nearest}
use soroban_gate.RateLimit.TokenBucket.{refilled}
use soroban_gate.Cache
use soroban_gate.Cache.{ttl_for, insert_ttl_rules, compute_cache_key, without_envelope}
use soroban_gate.Cache.Memory
use soroban_gate.Cache.Memory.{hash_to_u64, from_ne_bytes, from_le_bytes}
use soroban_gate.External.Http.{HeaderMap}
use soroban_gate.External.Sqlite.{DbError}
use soroban_gate.External.Instances.{names_json, full_moka, plain_argon2, table_sqlite}
use soroban_gate.Server.Http.{Request, Response, json_error_response}
use soroban_gate.Server.State.{Libraries, AppState, build_state, collect_tiers}
use soroban_gate.Server.Middleware.{
  run_next, layers, auth_middleware, rate_limit_middleware, gateway_middleware, cache_middleware,
  rate_key,
}
use soroban_gate.Server.Middleware.Laws.{layers-authenticated}
use soroban_gate.Server.Proxy.{
  Pending, Begun, answered, forwarding, begin, finish, response, through_cache, forward, find_pool,
  put_pool,
}
use soroban_gate.Server.Proxy.Laws.{InRange, Begins, begin_total}
use soroban_gate.Server.Admin.{set_upstream_health, find_in_pools, find_upstream}
use soroban_gate.Server.Admin.Laws.{IsPooled, set_upstream_health-forced}
use soroban_gate.Server.Gateway.{
  Gateway, started, forwards, traffic, Reach, start, later, administers, completes,
}
use soroban_gate.Server.Gateway.Connections.{waiting, Reach-connections}
use soroban_gate.Server.Gateway.Served.{Reach-answers}
use soroban_gate.Server.Gateway.Breakers.{done, more, Traffics-not_closed}

abbrev pub a_key : KeyEntry
a_key = record {
  id = "ab";
  key_hash = "sk_1";
  tier = "pro";
  label = "";
  is_revoked = false;
  created_at = 1;
}

abbrev pub one_key : String → Option KeyEntry
one_key id = if str_eq id "ab" then some a_key else none

abbrev pub open_table : String → Result table_sqlite.Connection DbError
open_table path = ok one_key

abbrev pub no_pairs : String → List (String × String)
no_pairs query = []

abbrev pub small : Libraries
small = record {
  serde_json = names_json;
  moka = full_moka;
  sqlite = table_sqlite;
  argon2 = plain_argon2;
  sha256 = λ bs. bs;
  sha256_text = λ t. 171 ∷ [];
  parse_query = no_pairs;
  open_database = open_table;
}

-- The gateway after start-up with two pools.
abbrev pub ready : AppState small
ready = record {
  config = record two_pools { auth = record two_pools.auth { tiers = [] } };
  start_time = 0;
  pools = (create_pools 0 two_pools).0;
  heap = (create_pools 0 two_pools).1.heap;
  router = Routing.new two_pools.routing;
  cache = some (Memory.new full_moka 512);
  cache_ttl_table = Cache.new two_pools.cache.rules;
  rate_limiter = some (RateLimiterDispatch.memory TokenBucket.new);
  key_store = some (Auth.KeyStoreDispatch.sqlite one_key);
  auth_tiers = collect_tiers two_pools.auth.tiers [];
  metrics = some [];
}

pub built : build_state small two_pools 0 ≡ ok ready
unfolding build_state
built = refl

abbrev pub with_key : HeaderMap
with_key = record {
  get = λ name.
      if str_eq name "Authorization" then some (record { to_str = some "Bearer sk_1" }) else none;
}

abbrev pub request : Request
request = record {
  method = "POST";
  headers = with_key;
  uri = record { path = "/"; query = none };
  body = some (1 ∷ []);
  auth_tier = none;
  auth_key_id = none;
}

abbrev pub first_draw : ℕ → ℕ
first_draw n = 0

pub first_draw-InRange : InRange first_draw
first_draw-InRange n h = h

abbrev pub state_of : Outcome (AppState small × Begun) → AppState small
state_of panicked = ready
state_of (returned (s, b)) = s

abbrev pub waiting_request : Pending
waiting_request = record { upstream = 0; method = "getHealth"; pool_name = "main"; body = 1 ∷ [] }

abbrev pub no_text : ℕ → String
no_text n = ""
