-- ===== src/Pool/Pools/Tests.antt =====
-- The theorems on src/pool/mod.rs for a concrete configuration.
use soroban_gate.Common.{ℕ, ◌<◌, ◌≡◌, ◌⊎◌, true, false, [], ◌∷◌, none, some, map, In, All}
use soroban_gate.Common.Outcome.{returned}
use soroban_gate.Config.Tests.{two_pools}
use soroban_gate.Config.{LoadBalancingAlgorithm}
use soroban_gate.Pool.Upstream
use soroban_gate.Pool.Upstream.{Arc, Heap, is_available, healthy}
use soroban_gate.Pool.Balancer.Choice.{counter_after}
use soroban_gate.Pool.Pools.{UpstreamPool, select_upstream, create_pools}
use soroban_gate.Pool.Pools.Selection.{select_upstream_total}
use soroban_gate.Pool.Pools.Creation.{
  view, configured, addresses, upstream_count, range, create_pools-configured,
}

abbrev up_heap : Heap
up_heap a =
    let u = Upstream.new "main" "http://up" 1 none 0 in
    record u { mutable_ = record u.mutable_ { health = healthy } }

abbrev pair_pool : UpstreamPool
pair_pool = record {
  name = "main";
  upstreams = 0 ∷ 1 ∷ [];
  algorithm = LoadBalancingAlgorithm.random;
  wrr_counter = 0;
}

abbrev first_draw : ℕ → ℕ
first_draw n = 0

first_draw_in_range : (n : ℕ) → 0 < n → first_draw n < n
first_draw_in_range n h = h

select_upstream_total_example :
    ((select_upstream up_heap first_draw pair_pool ≡ returned (none, pair_pool))
      × All (λ a. is_available (up_heap a) ≡ false) pair_pool.upstreams)
    ⊎ ((u : Arc) × (select_upstream up_heap first_draw pair_pool
          ≡ returned (
            some u,
            record pair_pool {
              wrr_counter = counter_after pair_pool.algorithm pair_pool.wrr_counter;
            },
          ))
        × In u pair_pool.upstreams
        × (is_available (up_heap u) ≡ true))
select_upstream_total_example =
    select_upstream_total up_heap first_draw pair_pool first_draw_in_range

create_pools-configured_example :
    (map (view (create_pools 7 two_pools).1.heap) (create_pools 7 two_pools).0
      ≡ map (configured 7) two_pools.pools)
    × (addresses (create_pools 7 two_pools).0 ≡ range 0 (upstream_count two_pools.pools))
create_pools-configured_example = create_pools-configured 7 two_pools
