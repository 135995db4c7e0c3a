-- ===== src/Server/Tests/Served.antt =====
-- The theorems on requests that are served, at concrete gateways with upstreams up.
use soroban_gate.Common.{String, ℕ, List, ◌≢◌, Option, length, count, arith}
use soroban_gate.Common.{◌≡◌, refl, inl, inr, true, [], ◌∷◌, some, ◌==◌, if◌then◌else◌}
use soroban_gate.Common.HashMap
use soroban_gate.Common.Outcome.{ok, returned}
use soroban_gate.Common.Text.{strip_prefix}
use soroban_gate.Auth
use soroban_gate.Auth.Extract.{extract_api_key, from_authorization}
use soroban_gate.Auth.Store
use soroban_gate.Auth.Store.{sha256_id, hex}
use soroban_gate.External.Instances.{plain_argon2, table_sqlite}
use soroban_gate.External.Instances.Web.{literal_axum, literal_axum-IsLawful}
use soroban_gate.Pool.CircuitBreaker
use soroban_gate.Pool.Upstream
use soroban_gate.Pool.Upstream.{Arc, healthy, unhealthy, is_available}
use soroban_gate.Pool.Pools.{
  healthy_upstreams, create_pools, create_pools_from, create_pool, create_upstreams,
}
use soroban_gate.Pool.Balancer.Expanded.{total_weight, weight_of}
use soroban_gate.Pool.Balancer.Wrr.{found}
use soroban_gate.Server.Proxy.Balanced.{forwards, forwards-proportional}
use soroban_gate.RateLimit
use soroban_gate.RateLimit.{RateLimiterDispatch}
use soroban_gate.RateLimit.TokenBucket
use soroban_gate.Common.Float.{as_secs, round, ulp, ulp_from, nearest}
use soroban_gate.RateLimit.TokenBucket.{refilled}
use soroban_gate.Server.State.{AppState, collect_tiers}
use soroban_gate.Server.Middleware.{rate_key}
use soroban_gate.Server.Middleware.Laws.{charged}
use soroban_gate.Server.Proxy.{find_pool}
use soroban_gate.Server.Proxy.Recovered.{Serves}
use soroban_gate.Server.App.{app}
use soroban_gate.Server.App.Served.{marked, app-served}
use soroban_gate.Server.Tests.{
  a_key, one_key, small, ready, request, first_draw, first_draw-InRange,
}
use soroban_gate.Server.Tests.Recovery.{main_pool, main_found, method_found}

-- The upstream 1 is healthy.
abbrev one_up : AppState small
one_up = record ready {
  heap = λ a. record (ready.heap a) {
    mutable_ = record (ready.heap a).mutable_ { health = if a == 1 then healthy else unhealthy };
  };
}

abbrev limiter : RateLimiterDispatch
limiter = RateLimiterDispatch.memory TokenBucket.new

key_given : extract_api_key small.parse_query request.headers request.uri ≡ some "sk_1"
unfolding extract_api_key from_authorization strip_prefix
key_given = refl

key_found :
    Auth.lookup table_sqlite plain_argon2 small.sha256_text
      (Auth.KeyStoreDispatch.sqlite one_key)
      "sk_1"
    ≡ ok (some a_key)
unfolding Auth.lookup Store.lookup sha256_id hex
key_found = refl

admitted : (charged small one_up 5 (marked small request a_key) limiter).1 ≡ ok tt
unfolding rate_key collect_tiers RateLimit.check_rate TokenBucket.check_rate TokenBucket.new
    HashMap.get HashMap.insert refilled as_secs round ulp ulp_from nearest
admitted = refl

upstream_up : is_available (one_up.heap 1) ≡ true
unfolding is_available CircuitBreaker.is_available CircuitBreaker.available_in CircuitBreaker.new
    create_pools create_pools_from create_pool create_upstreams Upstream.new
upstream_up = refl

app-served_example : Serves small main_pool (app small literal_axum one_up first_draw 5 request)
app-served_example =
    app-served small literal_axum one_up first_draw 5 request (Auth.KeyStoreDispatch.sqlite one_key)
      "sk_1" a_key limiter (1 ∷ []) "getHealth" main_pool 1 literal_axum-IsLawful first_draw-InRange
      refl refl key_given key_found refl refl refl admitted refl refl method_found main_found
      (inr (inl refl)) upstream_up

abbrev both_up : AppState small
both_up = record ready {
  heap =
      λ a. record (ready.heap a) { mutable_ = record (ready.heap a).mutable_ { health = healthy } };
}

abbrev one_request : (ℕ → ℕ) × String × List ℕ
one_request = (first_draw, "getHealth", 1 ∷ [])

abbrev row : List ((ℕ → ℕ) × String × List ℕ)
row = one_request ∷ one_request ∷ one_request ∷ one_request ∷ []

main_there : find_pool "main" both_up.pools ≡ some main_pool
unfolding find_pool create_pools create_pools_from create_pool create_upstreams
main_there = refl

filled : healthy_upstreams both_up.heap main_pool ≢ []
unfolding healthy_upstreams is_available CircuitBreaker.is_available CircuitBreaker.available_in
    CircuitBreaker.new create_pools create_pools_from create_pool create_upstreams Upstream.new
filled e = cc

whole_round : length row ≡ total_weight both_up.heap (healthy_upstreams both_up.heap main_pool)
unfolding healthy_upstreams is_available CircuitBreaker.is_available CircuitBreaker.available_in
    CircuitBreaker.new create_pools create_pools_from create_pool create_upstreams Upstream.new
whole_round = refl

forwards-proportional_example :
    (s' : AppState small) × (us : List (Option Arc)) × (forwards small both_up "main" row
      ≡ returned (s', us))
    × (count (found 1) us ≡ weight_of both_up.heap 1 (healthy_upstreams both_up.heap main_pool))
forwards-proportional_example =
    forwards-proportional small both_up "main" main_pool 1 row main_there refl filled whole_round
      (omega arith)
