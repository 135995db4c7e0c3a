-- ===== src/Config/Load/Defaults.antt =====
-- src/config/mod.rs: the defaults of single fields and those of whole sections.
use soroban_gate.Common.{◌≡◌, Option, none, some, arith}
use soroban_gate.Config.Load.{
  RawServer, RawTls, RawHealthCheck, RawRouting, RawRateLimit, RawAuth, RawCache, RawTelemetry,
  RawConfig, from_raw,
}

abbrev empty_server : RawServer
empty_server = record {
  bind = none;
  admin_bind = none;
  metrics_bind = none;
  log_level = none;
  log_format = none;
  request_timeout_ms = none;
  max_connections = none;
  worker_threads = none;
}

abbrev empty_tls : RawTls
empty_tls = record { enabled = none; cert_file = none; key_file = none; min_version = none }

abbrev empty_health_check : RawHealthCheck
empty_health_check = record {
  interval_ms = none;
  timeout_ms = none;
  healthy_threshold = none;
  unhealthy_threshold = none;
  method = none;
  warm_up_window_secs = none;
}

abbrev empty_routing : RawRouting
empty_routing = record { default_pool = none; rules = none }

abbrev empty_rate_limit : RawRateLimit
empty_rate_limit = record {
  enabled = none;
  store = none;
  ip_fallback_rps = none;
  ip_fallback_burst = none;
}

abbrev empty_auth : RawAuth
empty_auth = record {
  enabled = none;
  allow_unauthenticated = none;
  key_store = none;
  db_path = none;
  tiers = none;
}

abbrev empty_cache : RawCache
empty_cache = record {
  enabled = none;
  backend = none;
  max_memory_mb = none;
  redis_url = none;
  rules = none;
}

abbrev empty_telemetry : RawTelemetry
empty_telemetry = record { metrics_enabled = none; tracing_enabled = none; otlp_endpoint = none }

-- A section that is given without any fields.
abbrev pub given {ℓ} : {A : Type ℓ} → A → Option A → Option A
given empty none = some empty
given empty (some raw) = some raw

-- Every section that the file leaves out is written, without fields.
abbrev pub with_headings : RawConfig → RawConfig
with_headings raw = record raw {
  server = given empty_server raw.server;
  tls = given empty_tls raw.tls;
  health_check = given empty_health_check raw.health_check;
  routing = given empty_routing raw.routing;
  rate_limit = given empty_rate_limit raw.rate_limit;
  auth = given empty_auth raw.auth;
  cache = given empty_cache raw.cache;
  telemetry = given empty_telemetry raw.telemetry;
}

-- A file that leaves sections out means the same as the file with these sections there and empty:
-- the defaults of the fields agree with those of the sections.
pub from_raw-with_headings : (raw : RawConfig) → from_raw (with_headings raw) ≡ from_raw raw
unfolding from_raw
from_raw-with_headings raw = ground arith
