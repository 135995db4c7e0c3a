-- ===== src/Server/Tests/Lifecycle.antt =====
-- The theorems on the start and the end of the process, at concrete configurations.
use soroban_gate.Common.{◌≡◌, ◌≢◌, ◌⊎◌, true, false, [], ◌∷◌, none, some, String, refl, inl}
use soroban_gate.Common.Outcome.{Result, ok}
use soroban_gate.Config.{Config, LoadBalancingAlgorithm, RateLimitStore, KeyStore, CacheBackend}
use soroban_gate.Config.Load.{
  RawConfig, load, from_raw, pool_from_raw, upstream_from_raw, routing_from_raw, auth_from_raw,
  cache_from_raw, cache_rule_from_raw,
}
use soroban_gate.Config.Load.Defaults.{with_headings, from_raw-with_headings}
use soroban_gate.Config.Tests.{two_pools}
use soroban_gate.Config.Validate.{
  contains_name, validate_upstreams, validate_pools, validate_health_check, validate_rules,
  validate_redis, validate,
}
use soroban_gate.External.Instances.Web.{list_net, list_net-IsLawful}
use soroban_gate.Server.State.{build_state}
use soroban_gate.Server.State.Backends.{with_backends, SameServices, build_state-SameServices}
use soroban_gate.Server.Startup.{Listening, bind_listeners, main_server, failed, main}
use soroban_gate.Server.Startup.Tls.{main_server-tls_fails}
use soroban_gate.Server.Startup.Started.{main-answers}
use soroban_gate.Server.Shutdown.{
  Process, Server, running, waiting, spawned, Steps, done, more, waits, put_task,
}
use soroban_gate.Server.Shutdown.Laws.{Untold, Steps-never_told, Steps-shut_down}
use soroban_gate.Pool.Pools.{create_pools}
use soroban_gate.Server.Gateway.{start, started}
use soroban_gate.Server.Proxy.{begin}
use soroban_gate.Server.Tests.Traffic.{no_upstream, unavailable}
use soroban_gate.Server.Tests.{small, ready, first_draw, request, state_of}

build_state-SameServices_example :
    SameServices small
      (build_state small
        (with_backends RateLimitStore.redis KeyStore.redis CacheBackend.redis two_pools)
        0)
      (build_state small two_pools 0)
build_state-SameServices_example =
    build_state-SameServices small RateLimitStore.redis KeyStore.redis CacheBackend.redis two_pools
      0

abbrev with_tls : Config
with_tls = record two_pools { tls = record two_pools.tls { enabled = true } }

abbrev tls_listening : Listening small list_net
tls_listening = record {
  state = record ready { config = record ready.config { tls = with_tls.tls } };
  sockets = "127.0.0.1:9000" ∷ "0.0.0.0:8080" ∷ [];
}

tls_bound : bind_listeners small list_net [] with_tls 0 ≡ ok tls_listening
unfolding bind_listeners build_state create_pools
tls_bound = refl

main_server-tls_fails_example :
    (message : String) × (main_server small list_net tls_listening.sockets with_tls (ok tt)
      ≡ failed message)
main_server-tls_fails_example =
    main_server-tls_fails small list_net [] tls_listening.sockets with_tls 0 tls_listening (ok tt)
      list_net-IsLawful tls_bound (inl refl) refl refl

-- The signal comes before any server has asked to be notified.
abbrev early : Process
early = record (spawned true) { signalled = true }

still_running : early.tasks Server.main ≡ running
unfolding spawned
still_running = refl

nothing_returned : early.result ≡ none
unfolding spawned
nothing_returned = refl

signal_came : early.signalled ≡ true
signal_came = refl

abbrev late : Process
late = put_task early Server.main waiting

Steps-never_told_example : Untold (late.tasks Server.main) × (late.result ≢ some (ok tt))
Steps-never_told_example =
    Steps-never_told Server.main early late signal_came still_running nothing_returned
      (more done (waits Server.main still_running))

abbrev serving : Process
serving = record { tasks = λ s. waiting; signalled = false; result = none }

Steps-shut_down_example : (q : Process) × Steps serving q × (q.result ≡ some (ok tt))
Steps-shut_down_example = Steps-shut_down serving refl (λ s. inl refl)

-- The contents of a file: only the pools are given.
abbrev one_pool : RawConfig
one_pool = record {
  pools = some (
      record {
        name = "default";
        algorithm = none;
        upstreams = some (record { url = "http://a"; weight = none; max_connections = none } ∷ []);
      }
      ∷ []);
  server = none;
  tls = none;
  health_check = none;
  routing = none;
  rate_limit = none;
  auth = none;
  cache = none;
  telemetry = none;
}

from_raw-with_headings_example : from_raw (with_headings one_pool) ≡ from_raw one_pool
from_raw-with_headings_example = from_raw-with_headings one_pool

-- The contents of a file that gives `two_pools`.
abbrev file : RawConfig
file = record one_pool {
  pools = some (
      record {
        name = "main";
        algorithm = none;
        upstreams = some (
            record { url = "http://a"; weight = some 3; max_connections = none }
            ∷ record { url = "http://b"; weight = none; max_connections = none }
            ∷ []);
      }
      ∷ record {
        name = "slow";
        algorithm = some LoadBalancingAlgorithm.lc;
        upstreams = some (record { url = "http://c"; weight = none; max_connections = none } ∷ []);
      }
      ∷ []);
  routing = some (record {
    default_pool = some "main";
    rules = some (record { methods = "simulateTransaction" ∷ []; pool = "slow" } ∷ []);
  });
  auth = some (record {
    enabled = none;
    allow_unauthenticated = some false;
    key_store = none;
    db_path = none;
    tiers =
        some (record { name = "pro"; requests_per_second = 10; burst = 20; daily_limit = 0 } ∷ []);
  });
  cache = some (record {
    enabled = none;
    backend = none;
    max_memory_mb = none;
    redis_url = none;
    rules = some (record { methods = "getHealth" ∷ "getNetwork" ∷ []; ttl_secs = some 5 } ∷ []);
  });
}

abbrev read_to_string : String → Result String String
read_to_string path = ok ""

abbrev from_str : String → Result RawConfig String
from_str contents = ok file

abbrev listening : Listening small list_net
listening = record { state = ready; sockets = "127.0.0.1:9000" ∷ "0.0.0.0:8080" ∷ [] }

main_started : main small list_net read_to_string from_str [] "sorobangate.toml" 0 ≡ ok listening
unfolding main load from_raw pool_from_raw upstream_from_raw routing_from_raw auth_from_raw
    cache_from_raw cache_rule_from_raw validate validate_pools validate_upstreams
    validate_health_check validate_rules validate_redis contains_name bind_listeners build_state
    create_pools
main_started = refl

main-answers_example :
    (unavailable.status ≡ 200) ⊎ (unavailable.status ≡ 400) ⊎ (unavailable.status ≡ 503)
main-answers_example =
    main-answers small list_net read_to_string from_str [] "sorobangate.toml" 0 listening
      (started small ready) (state_of (begin small ready first_draw 5 request)) first_draw 5 request
      unavailable main_started start no_upstream
