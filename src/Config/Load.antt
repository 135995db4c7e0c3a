-- ===== src/Config/Load.antt =====
-- src/config/mod.rs: what the file's contents give, through the `serde` defaults, and `load`. A
-- field or a section that the file leaves out is `none`; the reading of the file and the TOML
-- parser are arguments.
pub mod Defaults
use soroban_gate.Common.{ℕ, Bool, false, List, [], ◌∷◌, Option, none, some, String, map}
use soroban_gate.Common.Text.{cat}
use soroban_gate.Common.Outcome.{Result, ok, err}
use soroban_gate.Config.{
  LogLevel, info, LogFormat, json, LoadBalancingAlgorithm, RateLimitStore, KeyStore, sqlite,
  CacheBackend, TlsVersion, tls12, ServerConfig, TlsConfig, UpstreamConfig, PoolConfig,
  HealthCheckConfig, RoutingRule, RoutingConfig, RateLimitConfig, KeyTier, AuthConfig, CacheRule,
  CacheConfig, TelemetryConfig, Config, default_bind, default_admin_bind, default_metrics_bind,
  default_request_timeout_ms, default_max_connections, default_worker_threads, default_true,
  default_weight, default_health_interval_ms, default_health_timeout_ms, default_healthy_threshold,
  default_unhealthy_threshold, default_health_method, default_warm_up_window_secs,
  default_default_pool, default_ip_fallback_rps, default_ip_fallback_burst, default_db_path,
  default_max_memory_mb, default_metrics_enabled, default_server, default_tls, default_health_check,
  default_routing, default_rate_limit, default_auth, default_cache, default_telemetry,
}

-- `#[serde(default = …)]`.
abbrev pub or_default {ℓ} : {A : Type ℓ} → Option A → A → A
or_default none d = d
or_default (some a) d = a

pub record RawServer : Type 0 where
  pub bind : Option String
  pub admin_bind : Option String
  pub metrics_bind : Option String
  pub log_level : Option LogLevel
  pub log_format : Option LogFormat
  pub request_timeout_ms : Option ℕ
  pub max_connections : Option ℕ
  pub worker_threads : Option ℕ

unfoldable pub server_from_raw : RawServer → ServerConfig
server_from_raw raw = record {
  bind = or_default raw.bind default_bind;
  admin_bind = or_default raw.admin_bind default_admin_bind;
  metrics_bind = or_default raw.metrics_bind default_metrics_bind;
  log_level = or_default raw.log_level info;
  log_format = or_default raw.log_format json;
  request_timeout_ms = or_default raw.request_timeout_ms default_request_timeout_ms;
  max_connections = or_default raw.max_connections default_max_connections;
  worker_threads = or_default raw.worker_threads default_worker_threads;
}

pub record RawTls : Type 0 where
  pub enabled : Option Bool
  pub cert_file : Option String
  pub key_file : Option String
  pub min_version : Option TlsVersion

unfoldable pub tls_from_raw : RawTls → TlsConfig
tls_from_raw raw = record {
  enabled = or_default raw.enabled false;
  cert_file = or_default raw.cert_file "";
  key_file = or_default raw.key_file "";
  min_version = or_default raw.min_version tls12;
}

pub record RawUpstream : Type 0 where
  pub url : String
  pub weight : Option ℕ
  pub max_connections : Option ℕ

unfoldable pub upstream_from_raw : RawUpstream → UpstreamConfig
upstream_from_raw raw = record {
  url = raw.url;
  weight = or_default raw.weight default_weight;
  max_connections = raw.max_connections;
}

pub record RawPool : Type 0 where
  pub name : String
  pub algorithm : Option LoadBalancingAlgorithm
  pub upstreams : Option (List RawUpstream)

unfoldable pub pool_from_raw : RawPool → PoolConfig
unfolding upstream_from_raw
pool_from_raw raw = record {
  name = raw.name;
  algorithm = or_default raw.algorithm LoadBalancingAlgorithm.wrr;
  upstreams = map upstream_from_raw (or_default raw.upstreams []);
}

pub record RawHealthCheck : Type 0 where
  pub interval_ms : Option ℕ
  pub timeout_ms : Option ℕ
  pub healthy_threshold : Option ℕ
  pub unhealthy_threshold : Option ℕ
  pub method : Option String
  pub warm_up_window_secs : Option ℕ

unfoldable pub health_check_from_raw : RawHealthCheck → HealthCheckConfig
health_check_from_raw raw = record {
  interval_ms = or_default raw.interval_ms default_health_interval_ms;
  timeout_ms = or_default raw.timeout_ms default_health_timeout_ms;
  healthy_threshold = or_default raw.healthy_threshold default_healthy_threshold;
  unhealthy_threshold = or_default raw.unhealthy_threshold default_unhealthy_threshold;
  method = or_default raw.method default_health_method;
  warm_up_window_secs = or_default raw.warm_up_window_secs default_warm_up_window_secs;
}

pub record RawRouting : Type 0 where
  pub default_pool : Option String
  pub rules : Option (List RoutingRule)

unfoldable pub routing_from_raw : RawRouting → RoutingConfig
routing_from_raw raw = record {
  default_pool = or_default raw.default_pool default_default_pool;
  rules = or_default raw.rules [];
}

pub record RawRateLimit : Type 0 where
  pub enabled : Option Bool
  pub store : Option RateLimitStore
  pub ip_fallback_rps : Option ℕ
  pub ip_fallback_burst : Option ℕ

unfoldable pub rate_limit_from_raw : RawRateLimit → RateLimitConfig
rate_limit_from_raw raw = record {
  enabled = or_default raw.enabled default_true;
  store = or_default raw.store RateLimitStore.memory;
  ip_fallback_rps = or_default raw.ip_fallback_rps default_ip_fallback_rps;
  ip_fallback_burst = or_default raw.ip_fallback_burst default_ip_fallback_burst;
}

pub record RawAuth : Type 0 where
  pub enabled : Option Bool
  pub allow_unauthenticated : Option Bool
  pub key_store : Option KeyStore
  pub db_path : Option String
  pub tiers : Option (List KeyTier)

unfoldable pub auth_from_raw : RawAuth → AuthConfig
auth_from_raw raw = record {
  enabled = or_default raw.enabled default_true;
  allow_unauthenticated = or_default raw.allow_unauthenticated default_true;
  key_store = or_default raw.key_store sqlite;
  db_path = or_default raw.db_path default_db_path;
  tiers = or_default raw.tiers [];
}

pub record RawCacheRule : Type 0 where
  pub methods : List String
  pub ttl_secs : Option ℕ

unfoldable pub cache_rule_from_raw : RawCacheRule → CacheRule
cache_rule_from_raw raw = record { methods = raw.methods; ttl_secs = or_default raw.ttl_secs 0 }

pub record RawCache : Type 0 where
  pub enabled : Option Bool
  pub backend : Option CacheBackend
  pub max_memory_mb : Option ℕ
  pub redis_url : Option String
  pub rules : Option (List RawCacheRule)

unfoldable pub cache_from_raw : RawCache → CacheConfig
unfolding cache_rule_from_raw
cache_from_raw raw = record {
  enabled = or_default raw.enabled default_true;
  backend = or_default raw.backend CacheBackend.memory;
  max_memory_mb = or_default raw.max_memory_mb default_max_memory_mb;
  redis_url = raw.redis_url;
  rules = map cache_rule_from_raw (or_default raw.rules []);
}

pub record RawTelemetry : Type 0 where
  pub metrics_enabled : Option Bool
  pub tracing_enabled : Option Bool
  pub otlp_endpoint : Option String

unfoldable pub telemetry_from_raw : RawTelemetry → TelemetryConfig
telemetry_from_raw raw = record {
  metrics_enabled = or_default raw.metrics_enabled default_metrics_enabled;
  tracing_enabled = or_default raw.tracing_enabled false;
  otlp_endpoint = raw.otlp_endpoint;
}

pub record RawConfig : Type 0 where
  pub pools : Option (List RawPool)
  pub server : Option RawServer
  pub tls : Option RawTls
  pub health_check : Option RawHealthCheck
  pub routing : Option RawRouting
  pub rate_limit : Option RawRateLimit
  pub auth : Option RawAuth
  pub cache : Option RawCache
  pub telemetry : Option RawTelemetry

-- A section that is left out is its `Default`.
abbrev pub section {ℓ κ} : {A : Type ℓ} {B : Type κ} → (A → B) → Option A → B → B
section fill none d = d
section fill (some raw) d = fill raw

unfoldable pub from_raw : RawConfig → Config
unfolding pool_from_raw server_from_raw tls_from_raw health_check_from_raw routing_from_raw
    rate_limit_from_raw auth_from_raw cache_from_raw telemetry_from_raw
from_raw raw = record {
  pools = map pool_from_raw (or_default raw.pools []);
  server = section server_from_raw raw.server default_server;
  tls = section tls_from_raw raw.tls default_tls;
  health_check = section health_check_from_raw raw.health_check default_health_check;
  routing = section routing_from_raw raw.routing default_routing;
  rate_limit = section rate_limit_from_raw raw.rate_limit default_rate_limit;
  auth = section auth_from_raw raw.auth default_auth;
  cache = section cache_from_raw raw.cache default_cache;
  telemetry = section telemetry_from_raw raw.telemetry default_telemetry;
}

-- `Config::load`, with what reading the file and parsing give.
unfoldable pub load :
    (String → Result String String)
    → (String → Result RawConfig String)
    → String
    → Result Config String
unfolding from_raw
load read_to_string from_str path = elim (read_to_string path) [
  | err e ↦ err (cat "Failed to read config file '" (cat path (cat "': " e)))
  | ok contents ↦ elim (from_str contents) [
    | err e ↦ err (cat "Failed to parse config file '" (cat path (cat "': " e)))
    | ok raw ↦ ok (from_raw raw)
  ]
]
