-- ===== src/Server/Tests/Recovery.antt =====
-- The theorem on recovery, at a concrete gateway whose upstreams are down.
use soroban_gate.Common.{
  ◌+◌, ◌≤◌, ◌<◌, ◌≡◌, [], ◌∷◌, List, ℕ, some, refl, inl, inr, length, map, Bool, if◌then◌else◌, leb,
  ◌==◌,
}
use soroban_gate.Common.{arith}
use soroban_gate.Common.Words.{u32_mod}
use soroban_gate.Common.HashMap
use soroban_gate.Config.{LoadBalancingAlgorithm}
use soroban_gate.Pool.CircuitBreaker.{open_}
use soroban_gate.Pool.Upstream
use soroban_gate.Pool.Upstream.{unhealthy}
use soroban_gate.Pool.Pools.{
  UpstreamPool, create_pools, create_pools_from, create_pool, create_upstreams,
}
use soroban_gate.Pool.Pools.Creation.{addresses}
use soroban_gate.Pool.Health.{responded, failed, Probes}
use soroban_gate.Pool.Health.Cycle.{Distinct, range-Distinct}
use soroban_gate.Pool.Health.Recovery.{Ready, probes_of}
use soroban_gate.Routing
use soroban_gate.Routing.{route, insert_rules, extract_json_rpc_method}
use soroban_gate.Server.State.{AppState}
use soroban_gate.Server.Proxy.{find_pool, begin}
use soroban_gate.Server.Proxy.Recovered.{Serves, checked_state, begin-recovered}
use soroban_gate.Server.Tests.{small, ready, request, first_draw, first_draw-InRange}

-- Every upstream is unhealthy, with its breaker open.
abbrev down : AppState small
down = record ready {
  heap = λ a. record (ready.heap a) {
    mutable_ = record (ready.heap a).mutable_ {
      circuit_breaker = record {
        state = open_;
        failure_count = 5;
        failure_threshold = 5;
        cooldown = 30;
        last_state_change = 0;
      };
    };
  };
}

abbrev ok_status : ℕ → Bool
ok_status status = leb status 299

-- The probes of the upstream 1 succeed, at the given time; those of the others fail.
abbrev probes_at : ℕ → Probes ok_status
probes_at now a = if a == 1 then (responded 200 5, now) else (failed, now)

abbrev later_probes : List (Probes ok_status)
later_probes = probes_at 40 ∷ probes_at 50 ∷ []

abbrev pub main_pool : UpstreamPool
main_pool = record {
  name = "main";
  upstreams = 0 ∷ 1 ∷ [];
  algorithm = LoadBalancingAlgorithm.wrr;
  wrr_counter = 0;
}

pub main_found : find_pool (route down.router "getHealth") down.pools ≡ some main_pool
unfolding find_pool route create_pools create_pools_from create_pool create_upstreams Routing.new
    insert_rules HashMap.get HashMap.insert HashMap.insert_each
main_found = refl

down-Distinct : Distinct (addresses down.pools)
unfolding create_pools create_pools_from create_pool create_upstreams
down-Distinct = range-Distinct 0 3

pub method_found : extract_json_rpc_method small.serde_json (1 ∷ []) ≡ some "getHealth"
unfolding extract_json_rpc_method
method_found = refl

cycles_enough : down.config.health_check.healthy_threshold ≤ length (probes_at 20 ∷ later_probes)
cycles_enough = omega arith

counter_room :
    (down.heap 1).mutable_.consecutive_successes + length (probes_at 20 ∷ later_probes) < u32_mod
unfolding create_pools create_pools_from create_pool create_upstreams Upstream.new
counter_room = omega arith

cooled :
    Ready
      (down.heap 1).mutable_.circuit_breaker
      (map (λ x. x.1) (probes_of ok_status 1 (probes_at 20 ∷ later_probes)))
cooled = inr (40, inr (inl refl), omega arith)

begin-recovered_example : Serves small main_pool (
    begin small
      (checked_state small ok_status down (probes_at 20 ∷ later_probes))
      first_draw
      60
      request)
begin-recovered_example =
    begin-recovered small ok_status down (probes_at 20) later_probes first_draw 60 request (1 ∷ [])
      "getHealth" main_pool 1 first_draw-InRange down-Distinct main_found (inr (inl refl))
      (refl, (refl, (refl, tt))) cycles_enough counter_room cooled refl method_found
