-- ===== src/Config/Validity.antt =====
-- What a configuration that `validate` accepts satisfies, stated without its checks.
use soroban_gate.Common.{
  ◌<◌, ◌≡◌, refl, ◌≢◌, ◌↔◌, ◌⊎◌, Bool, true, List, [], ◌∷◌, none, String, arith, All, str_eq_iff,
}
use text.Mathlib.TextLemmas.{cons-ne-nil}
use soroban_gate.Common.Outcome.{ok}
use soroban_gate.Common.Text.{is_empty_str}
use soroban_gate.Config.{
  Config, PoolConfig, UpstreamConfig, HealthCheckConfig, RoutingRule, RateLimitStore, KeyStore,
  CacheBackend,
}
use soroban_gate.Config.Validate.{
  contains_name, validate_upstreams, validate_pools, validate_health_check, validate_rules,
  validate_redis, validate, ensure, Check, ◌>>=◌,
}

-- Some pool of the list has the name.
abbrev pub IsNamed : String → List PoolConfig → Type 0
IsNamed name [] = ⊥
IsNamed name (p ∷ ps) = (p.name ≡ name) ⊎ IsNamed name ps

abbrev pub IsValidPool : PoolConfig → Type 0
IsValidPool p = (p.upstreams ≢ []) × All (λ u. 0 < u.weight) p.upstreams

abbrev pub IsValidRule : List PoolConfig → RoutingRule → Type 0
IsValidRule pools r = (r.methods ≢ []) × IsNamed r.pool pools

-- A backend that needs Redis, for a part that is enabled.
abbrev pub NeedsRedis : Config → Type 0
NeedsRedis c =
    ((c.cache.enabled ≡ true) × (c.cache.backend ≡ CacheBackend.redis))
    ⊎ ((c.rate_limit.enabled ≡ true) × (c.rate_limit.store ≡ RateLimitStore.redis))
    ⊎ ((c.auth.enabled ≡ true) × (c.auth.key_store ≡ KeyStore.redis))

pub record IsValid (c : Config) : Type 0 where
  pub some_pool : c.pools ≢ []
  pub pools : All IsValidPool c.pools
  pub healthy_threshold : 0 < c.health_check.healthy_threshold
  pub unhealthy_threshold : 0 < c.health_check.unhealthy_threshold
  pub method : c.health_check.method ≢ ""
  pub default_pool : IsNamed c.routing.default_pool c.pools
  pub rules : All (IsValidRule c.pools) c.routing.rules
  pub redis_url : ¬ (NeedsRedis c × (c.cache.redis_url ≡ none))

contains_name_iff :
    (name : String) (ps : List PoolConfig) → (contains_name name ps ≡ true) ↔ IsNamed name ps
unfolding contains_name
contains_name_iff name [] = ground arith
contains_name_iff name (p ∷ ps) = ground (arith, str_eq_iff p.name name, contains_name_iff name ps)

>>-eq-ok : (m k : Check) → ((m >>= λ _. k) ≡ ok tt) ↔ ((m ≡ ok tt) × (k ≡ ok tt))
>>-eq-ok m k = ground arith

ensure-eq-ok : (b : Bool) (message : String) → (ensure b message ≡ ok tt) ↔ (b ≡ true)
ensure-eq-ok b message = ground arith

validate_upstreams_iff :
    (pool : String) (us : List UpstreamConfig)
    → (validate_upstreams pool us ≡ ok tt) ↔ All (λ u. 0 < u.weight) us
unfolding validate_upstreams
validate_upstreams_iff pool [] = ground arith
validate_upstreams_iff pool (u ∷ us) = ground (arith, validate_upstreams_iff pool us)

validate_pools_iff : (ps : List PoolConfig) → (validate_pools ps ≡ ok tt) ↔ All IsValidPool ps
unfolding validate_pools
validate_pools_iff [] = ground arith
validate_pools_iff (p ∷ ps) =
    ground (arith, validate_upstreams_iff p.name p.upstreams, validate_pools_iff ps)

is_empty_str_iff : (s : String) → (is_empty_str s ≡ true) ↔ (s ≡ "")
is_empty_str_iff String.[] = (λ e. refl, λ e. refl)
is_empty_str_iff (String.◌∷◌ c s) = (λ e. cc, λ e. absurd (cons-ne-nil c s e))

validate_health_check_iff :
    (h : HealthCheckConfig)
    → (validate_health_check h ≡ ok tt)
      ↔ ((0 < h.healthy_threshold) × (0 < h.unhealthy_threshold) × (h.method ≢ ""))
unfolding validate_health_check
validate_health_check_iff h = ground (arith, is_empty_str_iff h.method)

validate_rules_iff :
    (pools : List PoolConfig) (rs : List RoutingRule)
    → (validate_rules pools rs ≡ ok tt) ↔ All (IsValidRule pools) rs
unfolding validate_rules
validate_rules_iff pools [] = ground arith
validate_rules_iff pools (r ∷ rs) =
    ground (arith, contains_name_iff r.pool pools, validate_rules_iff pools rs)

validate_redis_iff :
    (c : Config) → (validate_redis c ≡ ok tt) ↔ (¬ (NeedsRedis c × (c.cache.redis_url ≡ none)))
unfolding validate_redis
validate_redis_iff c = ground arith

-- `validate` accepts a configuration exactly when there is a pool, every pool has upstreams and
-- all weights are positive, both health thresholds are positive, the probe's method is not empty,
-- the default pool and every rule's pool are names of pools, no rule is without methods, and the
-- Redis URL is present if an enabled part uses Redis.
pub validate_iff : (c : Config) → (validate c ≡ ok tt) ↔ IsValid c
unfolding validate
validate_iff c = (
  λ e. ground (
    arith,
    validate_pools_iff c.pools,
    validate_health_check_iff c.health_check,
    contains_name_iff c.routing.default_pool c.pools,
    validate_rules_iff c.pools c.routing.rules,
    validate_redis_iff c,
  ),
  λ v. ground (
    arith,
    validate_pools_iff c.pools,
    validate_health_check_iff c.health_check,
    contains_name_iff c.routing.default_pool c.pools,
    validate_rules_iff c.pools c.routing.rules,
    validate_redis_iff c,
  ),
)
