-- ===== src/Pool/Pools/Creation.antt =====
-- `create_pools` lays the configured pools out in memory.
use mathlib.Core.Path.{ap₂}
use native.Mathlib.Nat.{add-zero, zero-add}
use soroban_gate.Common.{
  ℕ, zero, suc, ◌+◌, ◌<◌, ◌≡◌, refl, sym, ap, ◌∙◌, false, List, [], ◌∷◌, ◌++◌, map, String, arith,
  length, filter, All,
}
use soroban_gate.Config.{Config, PoolConfig, UpstreamConfig, LoadBalancingAlgorithm}
use soroban_gate.Pool.Upstream.{UpstreamState, Arc, Heap, is_available}
use soroban_gate.Pool.Upstream
use soroban_gate.Pool.Pools.{
  UpstreamPool, Memory, alloc, create_upstreams, create_pool, healthy_upstreams, create_pools_from,
  empty_memory, create_pools,
}

abbrev pub range : ℕ → ℕ → List ℕ
range i zero = []
range i (suc n) = i ∷ range (suc i) n

-- The states that a pool of the configuration stands for when the program starts at `now`.
abbrev pub fresh : ℕ → String → UpstreamConfig → UpstreamState
fresh now pool u = Upstream.new pool u.url u.weight u.max_connections now

-- Cells below `n` are the same in both heaps.
abbrev Agree : ℕ → Heap → Heap → Type 0
Agree n h k = (a : ℕ) → a < n → k a ≡ h a

map-range :
    (h k : Heap) (n i j : ℕ) → Agree n h k → i + j < suc n → map k (range i j) ≡ map h (range i j)
map-range h k n i zero agree fits = refl
map-range h k n i (suc j) agree fits =
    rw (agree i (omega arith), map-range h k n (suc i) j agree (omega arith))

record Laid (now : ℕ) (pool : String) (us : List UpstreamConfig) (m : Memory) (arcs : List Arc)
    (m' : Memory) : Type 0 where
  next : m'.next ≡ m.next + length us
  arcs_range : arcs ≡ range m.next (length us)
  agree : Agree m.next m.heap m'.heap
  states : map m'.heap arcs ≡ map (fresh now pool) us

create_upstreams-Laid :
    (now : ℕ) (pool : String) (us : List UpstreamConfig) (m : Memory)
    → Laid now pool us m (create_upstreams pool now us m).0 (create_upstreams pool now us m).1
unfolding create_upstreams
create_upstreams-Laid now pool [] m = record {
  next = omega arith;
  arcs_range = refl;
  agree = λ a h. refl;
  states = refl;
}
create_upstreams-Laid now pool (u ∷ us) m =
    let m' = (alloc (fresh now pool u) m).1 in
    let ih = create_upstreams-Laid now pool us m' in
    let old : Agree m.next m.heap m'.heap = λ a h. ground arith in
    let new_cell : m'.heap m.next ≡ fresh now pool u = ground arith in
    let step : m'.next ≡ suc m.next = omega arith in
    record {
      next = omega (arith, ih.next);
      arcs_range = ap (◌∷◌ m.next) (ih.arcs_range ∙ ap (λ n. range n (length us)) step);
      agree = λ a h. ih.agree a (omega arith) ∙ old a h;
      states = ap₂ ◌∷◌ (ih.agree m.next (omega arith) ∙ new_cell) ih.states;
    }

-- A pool as the balancer sees it, with its states read through the heap.
abbrev pub view : Heap → UpstreamPool → String × LoadBalancingAlgorithm × List UpstreamState × ℕ
view h p = (p.name, p.algorithm, map h p.upstreams, p.wrr_counter)

abbrev pub configured : ℕ → PoolConfig → String × LoadBalancingAlgorithm × List UpstreamState × ℕ
configured now p = (p.name, p.algorithm, map (fresh now p.name) p.upstreams, 0)

-- All the addresses that the pools hold, pool by pool.
abbrev pub addresses : List UpstreamPool → List Arc
addresses [] = []
addresses (p ∷ ps) = p.upstreams ++ addresses ps

abbrev pub upstream_count : List PoolConfig → ℕ
upstream_count [] = 0
upstream_count (p ∷ ps) = length p.upstreams + upstream_count ps

record LaidPools (now : ℕ) (ps : List PoolConfig) (m : Memory) (pools : List UpstreamPool)
    (m' : Memory) : Type 0 where
  next : m'.next ≡ m.next + upstream_count ps
  arcs_range : addresses pools ≡ range m.next (upstream_count ps)
  agree : Agree m.next m.heap m'.heap
  views : map (view m'.heap) pools ≡ map (configured now) ps

range-append : (i j k : ℕ) → range i j ++ range (i + j) k ≡ range i (j + k)
range-append i zero k = ap₂ range (add-zero i) (sym (zero-add k))
range-append i (suc j) k =
    let shift : i + suc j ≡ suc i + j = omega arith in
    let total : suc j + k ≡ suc (j + k) = omega arith in
    rw (shift, total) (ap (◌∷◌ i) (range-append (suc i) j k))

create_pools_from-LaidPools :
    (now : ℕ) (ps : List PoolConfig) (m : Memory)
    → LaidPools now ps m (create_pools_from now ps m).0 (create_pools_from now ps m).1
unfolding create_pools_from create_pool
create_pools_from-LaidPools now [] m = record {
  next = omega arith;
  arcs_range = refl;
  agree = λ a h. refl;
  views = refl;
}
create_pools_from-LaidPools now (p ∷ ps) m =
    let (arcs, m') = create_upstreams p.name now p.upstreams m in
    let laid = create_upstreams-Laid now p.name p.upstreams m in
    let ih = create_pools_from-LaidPools now ps m' in
    let final = (create_pools_from now ps m').1.heap in
    let read : map final arcs ≡ map (fresh now p.name) p.upstreams =
      ap (map final) laid.arcs_range
      ∙ map-range m'.heap final m'.next m.next (length p.upstreams) ih.agree
          (omega (arith, laid.next))
      ∙ ap (map m'.heap) (sym laid.arcs_range)
      ∙ laid.states in
    record {
      next = omega (arith, laid.next, ih.next);
      arcs_range =
          ap₂ ◌++◌ laid.arcs_range ih.arcs_range
          ∙ ap (λ n. range m.next (length p.upstreams) ++ range n (upstream_count ps)) laid.next
          ∙ range-append m.next (length p.upstreams) (upstream_count ps);
      agree = λ a h. ih.agree a (omega (arith, laid.next)) ∙ laid.agree a h;
      views = ap₂ ◌∷◌ (ap (λ l. (p.name, p.algorithm, l, 0)) read) ih.views;
    }

-- Read back through memory, the created pools are the configured ones: each has its name,
-- algorithm and upstreams in order, every upstream in its initial state, and a counter of zero. The
-- upstreams stand in cells of their own, numbered from zero, so that no two share a state.
pub create_pools-configured :
    (now : ℕ) (c : Config)
    → (map (view (create_pools now c).1.heap) (create_pools now c).0 ≡ map (configured now) c.pools)
      × (addresses (create_pools now c).0 ≡ range 0 (upstream_count c.pools))
unfolding create_pools
create_pools-configured now c =
    let laid = create_pools_from-LaidPools now c.pools (empty_memory now) in
    (laid.views, laid.arcs_range)

fresh_down :
    (now : ℕ) (pool : String) (u : UpstreamConfig) → is_available (fresh now pool u) ≡ false
unfolding Upstream.new is_available
fresh_down now pool u = refl

filter-fresh :
    (now : ℕ) (pool : String) (heap : Heap) (us : List UpstreamConfig) (arcs : List Arc)
    → map heap arcs ≡ map (fresh now pool) us
    → filter (λ a. is_available (heap a)) arcs ≡ []
filter-fresh now pool heap us [] e = refl
filter-fresh now pool heap [] (a ∷ arcs) e = cc
filter-fresh now pool heap (u ∷ us) (a ∷ arcs) e =
    let fresh_one : heap a ≡ fresh now pool u = ground arith in
    let rest : map heap arcs ≡ map (fresh now pool) us = ground arith in
    ground (
      arith,
      filter-fresh now pool heap us arcs rest,
      ap is_available fresh_one,
      fresh_down now pool u,
    )

healthy-views :
    (now : ℕ) (heap : Heap) (pools : List UpstreamPool) (ps : List PoolConfig)
    → map (view heap) pools ≡ map (configured now) ps
    → All (λ p. healthy_upstreams heap p ≡ []) pools
unfolding healthy_upstreams
healthy-views now heap [] ps e = tt
healthy-views now heap (q ∷ pools) [] e = cc
healthy-views now heap (q ∷ pools) (p ∷ ps) e =
    let same : map heap q.upstreams ≡ map (fresh now p.name) p.upstreams = ground arith in
    let rest : map (view heap) pools ≡ map (configured now) ps = ground arith in
    (
      filter-fresh now p.name heap p.upstreams q.upstreams same,
      healthy-views now heap pools ps rest,
    )

-- No pool has a healthy upstream before the first health check.
pub create_pools-none_healthy :
    (now : ℕ) (c : Config)
    → All (λ p. healthy_upstreams (create_pools now c).1.heap p ≡ []) (create_pools now c).0
create_pools-none_healthy now c =
    healthy-views now (create_pools now c).1.heap (create_pools now c).0 c.pools
      (create_pools-configured now c).0
