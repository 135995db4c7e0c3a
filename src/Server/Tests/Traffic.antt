-- ===== src/Server/Tests/Traffic.antt =====
-- The theorems on requests, health checks and the cache, at a concrete gateway.
use soroban_gate.Common.{◌+◌, ◌%◌, ◌≡◌, ◌≢◌, ◌⊎◌, true, false, [], ◌∷◌, some, String, refl}
use soroban_gate.Common.{◌<◌, ◌==◌, arith}
use soroban_gate.Server.Proxy.Caching.{key_of, stored_in, begin-stored}
use soroban_gate.Server.Proxy.{cached_response}
use soroban_gate.Common.Words.{u64_mod}
use soroban_gate.Common.Outcome.{returned}
use soroban_gate.Config.Tests.{two_pools}
use soroban_gate.Pool.CircuitBreaker
use soroban_gate.Pool.CircuitBreaker.{closed, open_}
use soroban_gate.Pool.Balancer.{select, weighted_round_robin, weighted_from}
use soroban_gate.Pool.Upstream.{Arc, Heap, is_available, healthy, increment_connection_count}
use soroban_gate.Pool.Upstream
use soroban_gate.Common.HashMap
use soroban_gate.Common.Words.{negsuc}
use soroban_gate.Pool.Pools.{
  create_pools, create_pools_from, create_pool, create_upstreams, select_upstream,
  healthy_upstreams,
}
use soroban_gate.Routing
use soroban_gate.Routing.{route, insert_rules, extract_json_rpc_method}
use soroban_gate.Cache
use soroban_gate.Cache.{ttl_for, insert_ttl_rules, compute_cache_key, without_envelope}
use soroban_gate.Cache.Memory
use soroban_gate.Cache.Memory.{hash_to_u64, from_ne_bytes, from_le_bytes}
use soroban_gate.External.Instances.{names_json, full_moka}
use soroban_gate.Server.Http.{Response, json_error_response}
use soroban_gate.Server.State.{AppState}
use soroban_gate.Server.Proxy.{
  answered, forwarding, begin, finish, response, through_cache, forward, find_pool, put_pool,
}
use soroban_gate.Server.Proxy.Laws.{Begins, begin_total}
use soroban_gate.Server.Admin.{set_upstream_health, find_in_pools, find_upstream}
use soroban_gate.Server.Admin.Laws.{IsPooled, set_upstream_health-forced}
use soroban_gate.Server.Gateway.{Gateway, forwards, traffic, Reach, start, later, administers}
use soroban_gate.Server.Gateway.Connections.{waiting, Reach-connections}
use soroban_gate.Common.{List, count}
use soroban_gate.Server.State.{MetricEvent}
use soroban_gate.Server.Gateway.Counting.{is_forwarded, is_cached, is_hit}
use soroban_gate.Server.Gateway.Accounts.{completed, hits, Reach-Accounts}
use soroban_gate.Server.Tests.{
  small, ready, built, request, first_draw, first_draw-InRange, state_of, waiting_request, no_text,
}

abbrev pub unavailable : Response
unavailable = json_error_response 503 (negsuc 32_003) "No healthy upstreams available"

pub no_upstream :
    begin small ready first_draw 5 request
    ≡ returned (state_of (begin small ready first_draw 5 request), answered unavailable)
unfolding begin through_cache forward route extract_json_rpc_method ttl_for compute_cache_key
    Memory.get Memory.new find_pool select_upstream healthy_upstreams put_pool create_pools
    create_pools_from create_pool create_upstreams Routing.new insert_rules Cache.new
    insert_ttl_rules HashMap.get HashMap.insert HashMap.insert_each without_envelope is_available
    Upstream.new json_error_response hash_to_u64 from_ne_bytes from_le_bytes
no_upstream = refl

begin_total_example : Begins small ready (begin small ready first_draw 5 request)
begin_total_example = begin_total small ready first_draw 5 request first_draw-InRange

abbrev same_text : String → String
same_text s = s

-- The admin API has enabled the first upstream.
abbrev enabled : AppState small
enabled = (set_upstream_health small same_text ready "http://a" true 1).0

forwarded :
    begin small enabled first_draw 5 request
    ≡ returned (state_of (begin small enabled first_draw 5 request), forwarding waiting_request)
unfolding begin through_cache forward route extract_json_rpc_method ttl_for compute_cache_key
    Memory.get Memory.new find_pool select_upstream healthy_upstreams put_pool create_pools
    create_pools_from create_pool create_upstreams Routing.new insert_rules Cache.new
    insert_ttl_rules HashMap.get HashMap.insert HashMap.insert_each without_envelope is_available
    Upstream.new json_error_response hash_to_u64 from_ne_bytes from_le_bytes set_upstream_health
    find_in_pools find_upstream CircuitBreaker.new CircuitBreaker.is_available
    CircuitBreaker.available_in select weighted_round_robin weighted_from increment_connection_count
forwarded = refl

abbrev one_waits : Gateway small
one_waits = record {
  state = state_of (begin small enabled first_draw 5 request);
  inflight = waiting_request ∷ [];
  dropped = [];
}

one_waits-Reach : Reach small ready one_waits
one_waits-Reach = later (later start (administers same_text "http://a" true 1)) (
    traffic
      (forwards first_draw 5 request one_waits.state waiting_request first_draw-InRange forwarded))

Reach-connections_example :
    (one_waits.state.heap 0).connection_count
    ≡ (waiting 0 one_waits.inflight + waiting 0 one_waits.dropped) % u64_mod
Reach-connections_example =
    Reach-connections small two_pools 0 ready one_waits 0 built one_waits-Reach

Reach-Accounts_example :
    (log : List MetricEvent) × (one_waits.state.metrics ≡ some log)
    × (count is_forwarded log ≡ completed small one_waits-Reach)
    × (count is_cached log ≡ hits small one_waits-Reach)
    × (count is_hit log ≡ hits small one_waits-Reach)
Reach-Accounts_example = Reach-Accounts small ready one_waits one_waits-Reach refl

-- The only upstream that is up has tripped its breaker.
abbrev pub tripped : AppState small
tripped = record ready {
  heap = λ a. record (ready.heap a) {
    mutable_ = record (ready.heap a).mutable_ {
      circuit_breaker = record (ready.heap a).mutable_.circuit_breaker { state = open_ };
    };
  };
}

pub open-ne-closed : open_ ≢ closed
open-ne-closed = λ e. cc

abbrev pub tripped_gateway : Gateway small
tripped_gateway = record { state = tripped; inflight = waiting_request ∷ []; dropped = [] }

set_upstream_health-forced_example :
    (((set_upstream_health small same_text ready "http://b" true 1).1.0 ≡ 404)
      × ((set_upstream_health small same_text ready "http://b" true 1).0 ≡ ready))
    ⊎ ((a : Arc) × ((set_upstream_health small same_text ready "http://b" true 1).1.0 ≡ 200)
        × ((ready.heap a).url ≡ "http://b")
        × IsPooled small a ready.pools
        × (is_available ((set_upstream_health small same_text ready "http://b" true 1).0.heap a)
            ≡ true)
        × ((b : Arc)
            → a ≢ b
            → (set_upstream_health small same_text ready "http://b" true 1).0.heap b
              ≡ ready.heap b))
set_upstream_health-forced_example =
    set_upstream_health-forced small ready same_text "http://b" true 1

ready_lifetime : (ttl_for ready.cache_ttl_table "getHealth" == 0) ≡ false
unfolding ttl_for Cache.new insert_ttl_rules HashMap.get HashMap.insert HashMap.insert_each
ready_lifetime = refl

method_read : extract_json_rpc_method names_json (1 ∷ []) ≡ some "getHealth"
unfolding extract_json_rpc_method
method_read = refl

abbrev ready_cache : Memory.MemoryCache full_moka
ready_cache = Memory.new full_moka 512

response_held :
    full_moka.get
      (hash_to_u64 full_moka.endian (key_of small (1 ∷ [])))
      (stored_in small ready ready_cache waiting_request (5 ∷ []) 9).cache
    ≡ some (record { bytes = 5 ∷ []; expires_at = 9 + ttl_for ready.cache_ttl_table "getHealth" })
unfolding Memory.set compute_cache_key without_envelope hash_to_u64 from_ne_bytes from_le_bytes
    ttl_for Cache.new insert_ttl_rules HashMap.get HashMap.insert HashMap.insert_each
response_held = refl

response_fresh : 10 < 9 + ttl_for ready.cache_ttl_table "getHealth"
unfolding ttl_for Cache.new insert_ttl_rules HashMap.get HashMap.insert HashMap.insert_each
response_fresh = omega arith

response_in_range : 9 + ttl_for ready.cache_ttl_table "getHealth" < Memory.instant_end
unfolding ttl_for Cache.new insert_ttl_rules HashMap.get HashMap.insert HashMap.insert_each
response_in_range = omega arith

begin-stored_example :
    (s' : AppState small) × (begin small
        (finish small ready no_text waiting_request (response 200 [] (5 ∷ [])) 9).0
        first_draw
        10
        request
      ≡ returned (s', answered (cached_response small (5 ∷ []))))
    × (s'.heap ≡ (finish small ready no_text waiting_request (response 200 [] (5 ∷ [])) 9).0.heap)
    × (s'.pools ≡ ready.pools)
begin-stored_example =
    begin-stored small ready ready_cache no_text waiting_request 200 [] (5 ∷ []) 9 10 first_draw
      request refl ready_lifetime refl response_in_range refl method_read response_held
      response_fresh
