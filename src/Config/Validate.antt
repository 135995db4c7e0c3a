-- ===== src/Config/Validate.antt =====
-- src/config/validate.rs: `validate`, one helper for each group of its `ensure!` checks. The error
-- is the message of the check that fails first.
use soroban_gate.Common.{
  Bool, true, false, not, ◌&&◌, List, [], ◌∷◌, Option, none, some, String, if◌then◌else◌, ltb,
  is_empty, str_eq,
}
use soroban_gate.Common.Outcome.{Result, ok, err}
use soroban_gate.Common.Text.{is_empty_str, cat}
use soroban_gate.Config.{
  Config, PoolConfig, UpstreamConfig, HealthCheckConfig, RoutingRule, RateLimitStore, KeyStore,
  CacheBackend,
}

abbrev pub Check : Type 0
Check = Result (Unit {0}) String

infixl 5 ◌>>=◌ ◌>>◌
abbrev pub ◌>>=◌ : Check → (Unit {0} → Check) → Check
ok a >>= f = f a
err e >>= f = err e

abbrev pub ◌>>◌ : Check → Check → Check
m >> k = m >>= λ _. k

-- `anyhow::ensure!(condition, message)`.
abbrev pub ensure : Bool → String → Check
ensure true message = ok tt
ensure false message = err message

-- `pool_names.contains(name)` for the set of the pools' names.
unfoldable pub contains_name : String → List PoolConfig → Bool
contains_name name [] = false
contains_name name (p ∷ ps) = if str_eq p.name name then true else contains_name name ps

-- The inner loop, over the upstreams of one pool.
unfoldable pub validate_upstreams : String → List UpstreamConfig → Check
validate_upstreams pool [] = ok tt
validate_upstreams pool (u ∷ us) = do
  ensure (ltb 0 u.weight)
      (cat "Upstream '" (cat u.url (cat "' in pool '" (cat pool "' must have weight > 0"))))
  validate_upstreams pool us

-- The loop over the pools.
unfoldable pub validate_pools : List PoolConfig → Check
validate_pools [] = ok tt
validate_pools (p ∷ ps) = do
  ensure (not (is_empty p.upstreams)) (cat "Pool '" (cat p.name "' has no upstreams defined"))
  validate_upstreams p.name p.upstreams
  validate_pools ps

unfoldable pub validate_health_check : HealthCheckConfig → Check
validate_health_check h = do
  ensure (ltb 0 h.healthy_threshold) "health_check.healthy_threshold must be > 0"
  ensure (ltb 0 h.unhealthy_threshold) "health_check.unhealthy_threshold must be > 0"
  ensure (not (is_empty_str h.method)) "health_check.method must not be empty"

-- The loop over the routing rules.
unfoldable pub validate_rules : List PoolConfig → List RoutingRule → Check
validate_rules pools [] = ok tt
validate_rules pools (r ∷ rs) = do
  ensure (not (is_empty r.methods))
      (cat "Routing rule for pool '" (cat r.pool "' has no methods defined"))
  ensure (contains_name r.pool pools)
      (cat "Routing rule references unknown pool '" (cat r.pool "'"))
  validate_rules pools rs

abbrev pub is_some {ℓ} : {A : Type ℓ} → Option A → Bool
is_some none = false
is_some (some a) = true

abbrev pub store_is_redis : RateLimitStore → Bool
store_is_redis RateLimitStore.memory = false
store_is_redis RateLimitStore.redis = true

abbrev pub key_store_is_redis : KeyStore → Bool
key_store_is_redis KeyStore.sqlite = false
key_store_is_redis KeyStore.redis = true

abbrev pub backend_is_redis : CacheBackend → Bool
backend_is_redis CacheBackend.memory = false
backend_is_redis CacheBackend.redis = true

-- The three checks for a Redis URL.
unfoldable pub validate_redis : Config → Check
validate_redis c = do
  if c.cache.enabled && backend_is_redis c.cache.backend
      then ensure url "cache.redis_url is required when cache backend is 'redis'"
      else ok tt
  if c.rate_limit.enabled && store_is_redis c.rate_limit.store
      then ensure url "cache.redis_url is required when rate_limit store is 'redis'"
      else ok tt
  if c.auth.enabled && key_store_is_redis c.auth.key_store
      then ensure url "cache.redis_url is required when auth key_store is 'redis'"
      else ok tt
  where
    url : Bool
    url = is_some c.cache.redis_url

unfoldable pub validate : Config → Check
validate c = do
  ensure (not (is_empty c.pools)) "At least one upstream pool is required"
  validate_pools c.pools
  validate_health_check c.health_check
  ensure (contains_name c.routing.default_pool c.pools) (
      cat "routing.default_pool '" (cat c.routing.default_pool "' does not match any defined pool"))
  validate_rules c.pools c.routing.rules
  validate_redis c
