-- ===== src/Server/Tests/Failover.antt =====
-- The theorem on failing requests, at a concrete gateway.
use soroban_gate.Common.{◌+◌, ◌≡◌, ◌≢◌, [], ◌∷◌, refl}
use soroban_gate.Common.{arith}
use soroban_gate.Common.Outcome.{returned}
use soroban_gate.Pool.CircuitBreaker
use soroban_gate.Pool.CircuitBreaker.{closed, open_}
use soroban_gate.Pool.Balancer.{select, weighted_round_robin, weighted_from}
use soroban_gate.Pool.Upstream.{Arc, Heap, is_available, healthy, increment_connection_count}
use soroban_gate.Pool.Upstream
use soroban_gate.Common.HashMap
use soroban_gate.Pool.Pools.{
  create_pools, create_pools_from, create_pool, create_upstreams, select_upstream,
  healthy_upstreams,
}
use soroban_gate.Routing
use soroban_gate.Routing.{route, insert_rules, extract_json_rpc_method}
use soroban_gate.Cache
use soroban_gate.Cache.{ttl_for, insert_ttl_rules, compute_cache_key, without_envelope}
use soroban_gate.Cache.Memory
use soroban_gate.Cache.Memory.{hash_to_u64, from_ne_bytes, from_le_bytes}
use soroban_gate.Server.State.{AppState}
use soroban_gate.Server.Proxy.{
  forwarding, begin, finish, through_cache, forward, find_pool, put_pool,
}
use soroban_gate.Server.Tests.{
  small, ready, request, first_draw, first_draw-InRange, state_of, waiting_request, no_text,
}
use soroban_gate.Common.{length, max, ◌≤◌, List, ℕ}
use soroban_gate.Server.Proxy.{Pending}
use soroban_gate.Common.Text.{contains, strip_prefix}
use soroban_gate.Pool.CircuitBreaker.{record_failure}
use soroban_gate.Pool.CircuitBreaker.Machine.{Inv}
use soroban_gate.Pool.Upstream.{healthy, decrement_connection_count}
use soroban_gate.Server.Proxy.{Exchange, no_response_in_time, forward_to_upstream, error_status}
use soroban_gate.Server.Proxy.Failover.{AllFailAt, finish_all, begin-failed_over}

-- Both upstreams of the main pool are up, and one failure short of tripping.
abbrev on_edge : AppState small
on_edge = record ready {
  heap = λ a. record (ready.heap a) {
    mutable_ = record (ready.heap a).mutable_ {
      health = healthy;
      circuit_breaker = record {
        state = closed;
        failure_count = 4;
        failure_threshold = 5;
        cooldown = 30;
        last_state_change = 0;
      };
    };
  };
}

on_edge-Inv : Inv (on_edge.heap 0).mutable_.circuit_breaker
on_edge-Inv = ground arith

abbrev timed_out : List (Pending × Exchange small × ℕ)
timed_out = (waiting_request, no_response_in_time, 9) ∷ []

timed_out-AllFailAt : AllFailAt small 0 timed_out
timed_out-AllFailAt = ((refl, refl), tt)

abbrev elsewhere : Pending
elsewhere = record waiting_request { upstream = 1 }

abbrev after_failures : AppState small
after_failures = finish_all small on_edge no_text timed_out

went_elsewhere :
    begin small after_failures first_draw 10 request
    ≡ returned (state_of (begin small after_failures first_draw 10 request), forwarding elsewhere)
unfolding begin through_cache forward route extract_json_rpc_method ttl_for compute_cache_key
    Memory.get Memory.new find_pool select_upstream healthy_upstreams put_pool create_pools
    create_pools_from create_pool create_upstreams Routing.new insert_rules Cache.new
    insert_ttl_rules HashMap.get HashMap.insert HashMap.insert_each without_envelope is_available
    Upstream.new hash_to_u64 from_ne_bytes from_le_bytes CircuitBreaker.new record_failure
    CircuitBreaker.is_available CircuitBreaker.available_in select weighted_round_robin
    weighted_from increment_connection_count decrement_connection_count finish_all finish
    forward_to_upstream error_status contains strip_prefix
went_elsewhere = refl

enough_failures : max 1 5 ≤ 4 + length timed_out
enough_failures = omega arith

begin-failed_over_example : elsewhere.upstream ≢ 0
begin-failed_over_example =
    begin-failed_over small on_edge (state_of (begin small after_failures first_draw 10 request))
      no_text timed_out 0 first_draw 10 request elsewhere on_edge-Inv refl timed_out-AllFailAt
      enough_failures first_draw-InRange went_elsewhere
