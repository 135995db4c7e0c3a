-- ===== src/Metrics/Tests.antt =====
-- src/metrics/mod.rs at concrete families.
