-- ===== src/Lib.antt =====
-- SorobanGate, a gateway for JSON-RPC: src/ of the repository, modelled and verified.
--
-- A request passes the layers of src/server/mod.rs (authentication, rate limiting) and comes to
-- the proxy handler of src/server/proxy.rs, which reads its method, asks the cache, picks the pool
-- by the routing rules, picks an upstream of the pool that is healthy and whose circuit breaker
-- lets requests through, and forwards the request. A background task probes the upstreams, and an
-- admin API changes the same state.
--
-- Common holds shared notation: Boolean tests, lists, `HashMap` as an association list, machine
--   words, `f64`, `str` operations, and computations that may panic.
-- External holds the third-party crates as records of operations, with the laws that the code
--   relies on (serde_json, moka, rusqlite, argon2, http, axum, listening sockets,
--   prometheus-client), the byte order of the target, and small instances for tests.
-- Config models src/config/mod.rs, Config/Validate src/config/validate.rs; Config/Validity says
--   what a valid configuration is, and Config/Load fills in what the file leaves out.
-- Pool/CircuitBreaker models src/pool/circuit_breaker.rs; Pool/Upstream and Pool/Pools
--   src/pool/mod.rs; Pool/Balancer src/pool/balancer.rs; Pool/Health src/pool/health.rs. An `Arc`
--   to an upstream is an address in a heap, since pools, handlers, health checks and the admin API
--   share the states.
-- Routing models src/routing/mod.rs, and Routing/Tables is its table as a quotient; RateLimit and
--   RateLimit/Trait model src/rate_limit/mod.rs, and RateLimit/TokenBucket
--   src/rate_limit/token_bucket.rs; Cache src/cache/mod.rs, and Cache/Memory src/cache/memory.rs;
--   Auth and Auth/Extract src/auth/mod.rs, and Auth/Store src/auth/store/sqlite.rs.
-- Server/State and Server/Middleware model src/server/mod.rs, Server/Proxy src/server/proxy.rs,
--   Server/Admin src/server/admin.rs, Server/Http their requests and responses. `proxy_handler`
--   is two functions, `begin` and `finish`, around its await. Server/Gateway puts the handlers, the
--   health checks and the admin API together as a step relation, in which requests interleave and
--   may be dropped while they wait. Server/Reports models the health report, Server/App the routes
--   of the gateway and a whole request, Server/Admin/Dispatch those of the admin API.
-- Auth/Store/History says what a history of creations and revocations makes of a key, in terms of
--   the requests only, and Auth/Store/Refinement what the table then holds. Pool/Health/Recovery
--   and Server/Proxy/Recovered follow an upstream that comes back, Server/Proxy/Balanced a row of
--   requests through the balancer, Server/App/Served a request through the layers, and
--   Server/Gateway/Counting and Server/Gateway/Accounts the log of the metrics through all steps.
-- Server/Gateway/Serving is the gateway as its clients drive it, through layers and routes.
-- Server/Startup models `serve` as far as the listeners, and src/main.rs; Server/Shutdown the servers
--   and the signal as a step relation.
-- The modules named Conformance hold the unit tests at the end of the source files, run on the
--   model.
-- Metrics models src/metrics/mod.rs; the handlers keep a log of their calls of the registry, which
--   Metrics/Replay replays into the families.
--
-- Counters of 32 and 64 bits wrap, as atomics do, and as Rust's additions do in a release build.
-- Every loop of the code runs over a list, so the model of the code needs no fuel. Instants are
-- nanoseconds that each call takes as an argument, and random draws, salts and the results of
-- network calls are arguments as well.
--
-- Common/Float holds the `f64` of the rate limiter as a multiple of 2^-82, which none of its numbers
-- goes below, and rounds each operation to a significand of 53 bits, to the nearest and of two to
-- the even one. It looks for the last place through 128 doublings, which reach beyond 2^64 seconds
-- times 2^32 tokens. RateLimit/TokenBucket/Refill compares a refill with its exact value.
--
-- The hit rate of the cache is rounded from the exact fraction. Not modelled: the contents of files
-- and what travels over sockets, the command line, logging and telemetry, the text encoding of the
-- metrics, the durations in histograms, and the files for Redis, which are empty.
pub mod Common
pub mod Config
pub mod Pool
pub mod External
pub mod Routing
pub mod RateLimit
pub mod Cache
pub mod Auth
pub mod Server
pub mod Metrics
