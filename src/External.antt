-- ===== src/External.antt =====
-- The third-party crates that the gateway calls, as records of operations, and what it relies on
-- of them, as records of laws; the target they are compiled for.
pub mod SerdeJson
pub mod Target
pub mod Moka
pub mod Http
pub mod Axum
pub mod Net
pub mod Prometheus
pub mod Argon2
pub mod Sqlite
pub mod Instances
