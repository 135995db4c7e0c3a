-- ===== src/Config.antt =====
-- src/config/mod.rs: the configuration's enumerations, structures and default values. Addresses
-- and paths are kept as their text.
pub mod Validate
pub mod Validity
pub mod Load
pub mod Tests
use soroban_gate.Common.{ℕ, Bool, true, false, List, [], Option, none, String}

pub data LogLevel : Type 0 where
  trace debug info warn error : LogLevel

unfoldable pub as_str : LogLevel → String
as_str trace = "trace"
as_str debug = "debug"
as_str info = "info"
as_str warn = "warn"
as_str error = "error"

pub data LogFormat : Type 0 where
  json pretty : LogFormat

pub data LoadBalancingAlgorithm : Type 0 where
  wrr lc random : LoadBalancingAlgorithm

pub data RateLimitStore : Type 0 where
  memory redis : RateLimitStore

pub data KeyStore : Type 0 where
  sqlite redis : KeyStore

pub data CacheBackend : Type 0 where
  memory redis : CacheBackend

pub data TlsVersion : Type 0 where
  tls12 tls13 : TlsVersion

abbrev pub default_bind : String
default_bind = "0.0.0.0:8080"

abbrev pub default_admin_bind : String
default_admin_bind = "127.0.0.1:9000"

abbrev pub default_metrics_bind : String
default_metrics_bind = "0.0.0.0:9090"

abbrev pub default_request_timeout_ms : ℕ
default_request_timeout_ms = 30_000

abbrev pub default_max_connections : ℕ
default_max_connections = 50_000

abbrev pub default_worker_threads : ℕ
default_worker_threads = 0

abbrev pub default_true : Bool
default_true = true

abbrev pub default_weight : ℕ
default_weight = 1

abbrev pub default_health_interval_ms : ℕ
default_health_interval_ms = 5_000

abbrev pub default_health_timeout_ms : ℕ
default_health_timeout_ms = 2_000

abbrev pub default_healthy_threshold : ℕ
default_healthy_threshold = 2

abbrev pub default_unhealthy_threshold : ℕ
default_unhealthy_threshold = 3

abbrev pub default_health_method : String
default_health_method = "getHealth"

abbrev pub default_warm_up_window_secs : ℕ
default_warm_up_window_secs = 30

abbrev pub default_default_pool : String
default_default_pool = "default"

abbrev pub default_ip_fallback_rps : ℕ
default_ip_fallback_rps = 5

abbrev pub default_ip_fallback_burst : ℕ
default_ip_fallback_burst = 10

abbrev pub default_db_path : String
default_db_path = "./sorobangate.db"

abbrev pub default_max_memory_mb : ℕ
default_max_memory_mb = 512

abbrev pub default_metrics_enabled : Bool
default_metrics_enabled = true

pub record ServerConfig : Type 0 where
  pub bind : String
  pub admin_bind : String
  pub metrics_bind : String
  pub log_level : LogLevel
  pub log_format : LogFormat
  pub request_timeout_ms : ℕ
  pub max_connections : ℕ
  pub worker_threads : ℕ

abbrev pub default_server : ServerConfig
default_server = record {
  bind = default_bind;
  admin_bind = default_admin_bind;
  metrics_bind = default_metrics_bind;
  log_level = info;
  log_format = json;
  request_timeout_ms = default_request_timeout_ms;
  max_connections = default_max_connections;
  worker_threads = default_worker_threads;
}

pub record TlsConfig : Type 0 where
  pub enabled : Bool
  pub cert_file : String
  pub key_file : String
  pub min_version : TlsVersion

abbrev pub default_tls : TlsConfig
default_tls = record { enabled = false; cert_file = ""; key_file = ""; min_version = tls12 }

pub record UpstreamConfig : Type 0 where
  pub url : String
  pub weight : ℕ
  pub max_connections : Option ℕ

pub record PoolConfig : Type 0 where
  pub name : String
  pub algorithm : LoadBalancingAlgorithm
  pub upstreams : List UpstreamConfig

pub record HealthCheckConfig : Type 0 where
  pub interval_ms : ℕ
  pub timeout_ms : ℕ
  pub healthy_threshold : ℕ
  pub unhealthy_threshold : ℕ
  pub method : String
  pub warm_up_window_secs : ℕ

abbrev pub default_health_check : HealthCheckConfig
default_health_check = record {
  interval_ms = default_health_interval_ms;
  timeout_ms = default_health_timeout_ms;
  healthy_threshold = default_healthy_threshold;
  unhealthy_threshold = default_unhealthy_threshold;
  method = default_health_method;
  warm_up_window_secs = default_warm_up_window_secs;
}

pub record RoutingRule : Type 0 where
  pub methods : List String
  pub pool : String

pub record RoutingConfig : Type 0 where
  pub default_pool : String
  pub rules : List RoutingRule

abbrev pub default_routing : RoutingConfig
default_routing = record { default_pool = default_default_pool; rules = [] }

pub record RateLimitConfig : Type 0 where
  pub enabled : Bool
  pub store : RateLimitStore
  pub ip_fallback_rps : ℕ
  pub ip_fallback_burst : ℕ

abbrev pub default_rate_limit : RateLimitConfig
default_rate_limit = record {
  enabled = true;
  store = RateLimitStore.memory;
  ip_fallback_rps = default_ip_fallback_rps;
  ip_fallback_burst = default_ip_fallback_burst;
}

pub record KeyTier : Type 0 where
  pub name : String
  pub requests_per_second : ℕ
  pub burst : ℕ
  pub daily_limit : ℕ

pub record AuthConfig : Type 0 where
  pub enabled : Bool
  pub allow_unauthenticated : Bool
  pub key_store : KeyStore
  pub db_path : String
  pub tiers : List KeyTier

abbrev pub default_auth : AuthConfig
default_auth = record {
  enabled = true;
  allow_unauthenticated = true;
  key_store = sqlite;
  db_path = default_db_path;
  tiers = [];
}

pub record CacheRule : Type 0 where
  pub methods : List String
  pub ttl_secs : ℕ

pub record CacheConfig : Type 0 where
  pub enabled : Bool
  pub backend : CacheBackend
  pub max_memory_mb : ℕ
  pub redis_url : Option String
  pub rules : List CacheRule

abbrev pub default_cache : CacheConfig
default_cache = record {
  enabled = true;
  backend = CacheBackend.memory;
  max_memory_mb = default_max_memory_mb;
  redis_url = none;
  rules = [];
}

pub record TelemetryConfig : Type 0 where
  pub metrics_enabled : Bool
  pub tracing_enabled : Bool
  pub otlp_endpoint : Option String

abbrev pub default_telemetry : TelemetryConfig
default_telemetry = record { metrics_enabled = true; tracing_enabled = false; otlp_endpoint = none }

pub record Config : Type 0 where
  pub server : ServerConfig
  pub tls : TlsConfig
  pub pools : List PoolConfig
  pub health_check : HealthCheckConfig
  pub routing : RoutingConfig
  pub rate_limit : RateLimitConfig
  pub auth : AuthConfig
  pub cache : CacheConfig
  pub telemetry : TelemetryConfig
