-- ===== src/Pool.antt =====
-- src/pool/: upstream nodes, their circuit breakers and health, and load balancing.
pub mod CircuitBreaker
pub mod Upstream
pub mod Balancer
pub mod Pools
pub mod Health
