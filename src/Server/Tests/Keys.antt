-- ===== src/Server/Tests/Keys.antt =====
-- The theorems on authentication and rate limiting, at a concrete gateway.
use soroban_gate.Common.{
  ℕ, ◌+◌, ◌≡◌, false, List, [], ◌∷◌, Option, none, some, String, if◌then◌else◌, refl, str_eq,
}
use soroban_gate.Common.{◌*◌, ◌-◌, ◌≤◌, arith, Bool}
use soroban_gate.Auth.Extract.{from_x_api_key}
use soroban_gate.Server.Admin.{keys_create_handler, text_field, unwrap_or}
use soroban_gate.Server.Admin.KeyLife.{lookup_in, keys_create_handler-admits}
use soroban_gate.External.Instances.{table_sqlite-IsLawful, plain_argon2-IsLawful}
use soroban_gate.RateLimit.TokenBucket.Bounds.{called, InOrder, Uniform}
use soroban_gate.RateLimit.TokenBucket.{token}
use soroban_gate.RateLimit.TokenBucket.Refill.{billion, slack}
use soroban_gate.Server.Middleware.Rates.{calls, through, through-le}
use soroban_gate.Common.Outcome.{ok}
use soroban_gate.Auth
use soroban_gate.Auth.Entry.{KeyEntry}
use soroban_gate.Auth.Extract.{extract_api_key, from_authorization}
use soroban_gate.Auth.Store
use soroban_gate.Auth.Store.{sha256_id, hex}
use soroban_gate.Common.Text.{strip_prefix}
use soroban_gate.RateLimit
use soroban_gate.Common.HashMap
use soroban_gate.RateLimit.{RateLimiterDispatch}
use soroban_gate.RateLimit.TokenBucket
use soroban_gate.Common.Float.{as_secs, round, ulp, ulp_from, nearest}
use soroban_gate.RateLimit.TokenBucket.{refilled}
use soroban_gate.External.Instances.{plain_argon2, table_sqlite}
use soroban_gate.Server.Http.{Request}
use soroban_gate.Server.State.{AppState, collect_tiers}
use soroban_gate.Server.Middleware.{
  run_next, layers, auth_middleware, rate_limit_middleware, gateway_middleware, cache_middleware,
  rate_key,
}
use soroban_gate.Server.Middleware.Laws.{layers-authenticated}
use soroban_gate.Server.Tests.{a_key, one_key, no_pairs, small, ready, with_key, request}

abbrev marked : Request
marked = record request {
  auth_tier = some (record { name = "pro" });
  auth_key_id = some (record { id = "ab" });
}

abbrev layered : AppState small
layered = (layers small ready 5 request).0

let_through : layers small ready 5 request ≡ (layered, run_next marked)
unfolding layers auth_middleware rate_limit_middleware gateway_middleware cache_middleware
    extract_api_key from_authorization strip_prefix Auth.lookup Store.lookup sha256_id hex rate_key
    collect_tiers RateLimit.check_rate TokenBucket.check_rate TokenBucket.new HashMap.get
    HashMap.insert refilled as_secs round ulp ulp_from nearest
let_through = refl

layers-authenticated_example :
    (key : String) × (entry : KeyEntry) × (extract_api_key no_pairs with_key request.uri ≡ some key)
    × (Auth.lookup table_sqlite plain_argon2 small.sha256_text
          (Auth.KeyStoreDispatch.sqlite one_key)
          key
        ≡ ok (some entry))
    × (entry.is_revoked ≡ false)
    × (marked ≡ record request {
      auth_tier = some (record { name = entry.tier });
      auth_key_id = some (record { id = entry.id });
    })
layers-authenticated_example =
    layers-authenticated small ready layered 5 request marked (Auth.KeyStoreDispatch.sqlite one_key)
      refl refl refl let_through

-- The gateway with the row of a key that is about to be stored.
abbrev payload : String → Bool
payload q = str_eq q "key"

abbrev empty_table : String → Option KeyEntry
empty_table id = none

abbrev keyless : AppState small
keyless = record ready { key_store = some (Auth.KeyStoreDispatch.sqlite empty_table) }

abbrev with_new_key : Request
with_new_key = record request {
  headers = record {
    get = λ name.
        if str_eq name "X-API-Key" then some (record { to_str = some "getHealth" }) else none;
  };
}

new_key_given : text_field small payload "key" ≡ some "getHealth"
unfolding text_field
new_key_given = refl

new_key_carried : extract_api_key no_pairs with_new_key.headers with_new_key.uri ≡ some "getHealth"
unfolding extract_api_key from_authorization from_x_api_key
new_key_carried = refl

created_new : (keys_create_handler small keyless payload 3 4).1.0 ≡ 201
unfolding keys_create_handler text_field Auth.create_key Store.create_key Store.hash_key sha256_id
    hex
created_new = refl

keys_create_handler-admits_example :
    (id : String) × (auth_middleware small
        (keys_create_handler small keyless payload 3 4).0
        with_new_key
      ≡ run_next (record with_new_key {
        auth_tier =
            some (record { name = unwrap_or small (text_field small payload "tier") "default" });
        auth_key_id = some (record { id = id });
      }))
keys_create_handler-admits_example =
    keys_create_handler-admits small table_sqlite-IsLawful plain_argon2-IsLawful keyless empty_table
      none payload 3 4 with_new_key "getHealth" refl refl new_key_given refl new_key_carried
      created_new

key_carried : extract_api_key no_pairs with_key request.uri ≡ some "sk_1"
unfolding extract_api_key from_authorization strip_prefix
key_carried = refl

key_accepted : lookup_in small one_key "sk_1" ≡ ok (some a_key)
unfolding Store.lookup sha256_id hex
key_accepted = refl

abbrev requests : List (ℕ × Request)
requests = (5, request) ∷ (6, with_new_key) ∷ (7, request) ∷ []

requests-InOrder : InOrder 0 10 (calls small ready requests)
unfolding calls auth_middleware extract_api_key from_authorization from_x_api_key strip_prefix
    Auth.lookup Store.lookup sha256_id hex rate_key collect_tiers HashMap.get HashMap.insert
requests-InOrder = ground arith

requests-Uniform : Uniform "tier:pro" 10 20 (calls small ready requests)
unfolding calls auth_middleware extract_api_key from_authorization from_x_api_key strip_prefix
    Auth.lookup Store.lookup sha256_id hex rate_key collect_tiers HashMap.get HashMap.insert
requests-Uniform = ground arith

through-le_example :
    (billion * (through small "tier:pro" ready requests * token)
      ≤ billion * (20 * token)
        + (10 - 0) * 10 * token
        + called "tier:pro" (calls small ready requests) * (billion * slack))
    × (through small "tier:pro" ready requests
        ≤ called "tier:pro" (calls small ready requests) * 20)
through-le_example =
    through-le small "tier:pro" 10 20 0 10 ready requests (omega arith) (omega arith) refl refl
      requests-InOrder requests-Uniform
