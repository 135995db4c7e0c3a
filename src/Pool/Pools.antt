-- ===== src/Pool/Pools.antt =====
-- src/pool/mod.rs, `UpstreamPool` and `create_pools`. Start-up happens at one instant `now`.
mod Tests
pub mod Selection
pub mod Creation
use soroban_gate.Common.{
  ℕ, ◌+◌, Bool, List, [], ◌∷◌, Option, none, some, String, filter, is_empty, if◌then◌else◌, ◌==◌,
}
use soroban_gate.Common.Outcome.{Outcome, returned}
use soroban_gate.Config.{Config, PoolConfig, UpstreamConfig, LoadBalancingAlgorithm}
use soroban_gate.Pool.Upstream.{UpstreamState, Arc, Heap, is_available}
use soroban_gate.Pool.Upstream
use soroban_gate.Pool.Balancer.{select, ◌>>=◌}

pub record UpstreamPool : Type 0 where
  pub name : String
  pub upstreams : List Arc
  pub algorithm : LoadBalancingAlgorithm
  pub wrr_counter : ℕ

unfoldable pub healthy_upstreams : Heap → UpstreamPool → List Arc
healthy_upstreams heap pool = filter (λ a. is_available (heap a)) pool.upstreams

-- The second part is the pool with its counter afterwards.
unfoldable pub select_upstream : Heap → (ℕ → ℕ) → UpstreamPool → Outcome (Option Arc × UpstreamPool)
select_upstream heap draw pool =
    let healthy = healthy_upstreams heap pool in
    if is_empty healthy then returned (none, pool) else (do
      (chosen, counter) ← select heap draw healthy pool.algorithm pool.wrr_counter
      returned (chosen, record pool { wrr_counter = counter }))

-- The allocator: the cells in use are those below `next`.
pub record Memory : Type 0 where
  pub heap : Heap
  pub next : ℕ

-- `Arc::new(state)`.
abbrev pub alloc : UpstreamState → Memory → Arc × Memory
alloc state m =
    (m.next, record { heap = λ a. if m.next == a then state else m.heap a; next = m.next + 1 })

unfoldable pub create_upstreams : String → ℕ → List UpstreamConfig → Memory → List Arc × Memory
unfolding Upstream.new
create_upstreams pool_name now [] m = ([], m)
create_upstreams pool_name now (u ∷ us) m =
    let (a, m') = alloc (Upstream.new pool_name u.url u.weight u.max_connections now) m in
    let (as_, m'') = create_upstreams pool_name now us m' in (a ∷ as_, m'')

unfoldable pub create_pool : ℕ → PoolConfig → Memory → UpstreamPool × Memory
create_pool now p m =
    let (upstreams, m') = create_upstreams p.name now p.upstreams m in
    (record { name = p.name; upstreams = upstreams; algorithm = p.algorithm; wrr_counter = 0 }, m')

unfoldable pub create_pools_from : ℕ → List PoolConfig → Memory → List UpstreamPool × Memory
create_pools_from now [] m = ([], m)
create_pools_from now (p ∷ ps) m =
    let (pool, m') = create_pool now p m in
    let (pools, m'') = create_pools_from now ps m' in (pool ∷ pools, m'')

-- The cells that nobody has allocated hold a state that no pool refers to.
abbrev pub empty_memory : ℕ → Memory
empty_memory now = record { heap = λ a. Upstream.new "" "" 0 none now; next = 0 }

unfoldable pub create_pools : ℕ → Config → List UpstreamPool × Memory
unfolding create_pools_from
create_pools now config = create_pools_from now config.pools (empty_memory now)
