-- ===== src/Config/Tests.antt =====
-- A concrete configuration, and the theorems on src/config/ for it.
use soroban_gate.Common.{◌≡◌, ◌↔◌, false, [], ◌∷◌, none, refl}
use soroban_gate.Common.Outcome.{ok}
use soroban_gate.Config.{
  Config, PoolConfig, LoadBalancingAlgorithm, default_server, default_tls, default_health_check,
  default_rate_limit, default_auth, default_cache, default_telemetry,
}
use soroban_gate.Config.Validate.{
  contains_name, validate_upstreams, validate_pools, validate_health_check, validate_rules,
  validate_redis, validate,
}
use soroban_gate.Config.Validity.{IsValid, validate_iff}

abbrev pub main_pool : PoolConfig
main_pool = record {
  name = "main";
  algorithm = LoadBalancingAlgorithm.wrr;
  upstreams =
      record { url = "http://a"; weight = 3; max_connections = none }
      ∷ record { url = "http://b"; weight = 1; max_connections = none }
      ∷ [];
}

abbrev pub slow_pool : PoolConfig
slow_pool = record {
  name = "slow";
  algorithm = LoadBalancingAlgorithm.lc;
  upstreams = record { url = "http://c"; weight = 1; max_connections = none } ∷ [];
}

abbrev pub two_pools : Config
two_pools = record {
  server = default_server;
  tls = default_tls;
  pools = main_pool ∷ slow_pool ∷ [];
  health_check = default_health_check;
  routing = record {
    default_pool = "main";
    rules = record { methods = "simulateTransaction" ∷ []; pool = "slow" } ∷ [];
  };
  rate_limit = default_rate_limit;
  auth = record default_auth {
    allow_unauthenticated = false;
    tiers = record { name = "pro"; requests_per_second = 10; burst = 20; daily_limit = 0 } ∷ [];
  };
  cache = record default_cache {
    rules = record { methods = "getHealth" ∷ "getNetwork" ∷ []; ttl_secs = 5 } ∷ [];
  };
  telemetry = default_telemetry;
}

pub two_pools_accepted : validate two_pools ≡ ok tt
unfolding validate validate_pools validate_upstreams validate_health_check validate_rules
    validate_redis contains_name
two_pools_accepted = refl

validate_iff_example : (validate two_pools ≡ ok tt) ↔ IsValid two_pools
validate_iff_example = validate_iff two_pools
