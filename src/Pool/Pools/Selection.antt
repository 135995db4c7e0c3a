-- ===== src/Pool/Pools/Selection.antt =====
-- src/pool/mod.rs: what a pool's selection gives, over any state of its upstreams.
use soroban_gate.Common.{
  ℕ, ◌<◌, ◌≡◌, refl, ◌⊎◌, inl, inr, Bool, true, false, List, [], ◌∷◌, none, some, arith, In, All,
  filter, length, is_empty, Bool-cases, if◌then◌else◌,
}
use soroban_gate.Common.Outcome.{returned}
use soroban_gate.Pool.Upstream.{Arc, Heap, is_available}
use soroban_gate.Pool.Balancer.Choice.{select-In, counter_after}
use soroban_gate.Pool.Pools.{UpstreamPool, healthy_upstreams, select_upstream}

In-if :
    (b : Bool) (u x : Arc) (xs : List Arc)
    → In u (if b then x ∷ xs else xs)
    → ((b ≡ true) × (u ≡ x)) ⊎ In u xs
In-if true u x xs (inl e) = inl (refl, e)
In-if true u x xs (inr m) = inr m
In-if false u x xs m = inr m

In-filter : (p : Arc → Bool) (u : Arc) (xs : List Arc) → In u (filter p xs) → In u xs × (p u ≡ true)
In-filter p u [] m = absurd m
In-filter p u (x ∷ xs) m = elim (In-if (p x) u x (filter p xs) m) [
  | inl (passed, e) ↦ (inl e, rw e passed)
  | inr later ↦ let (there, passed) = In-filter p u xs later in (inr there, passed)
]

is_empty-filter :
    (p : Arc → Bool) (xs : List Arc) → is_empty (filter p xs) ≡ true → All (λ x. p x ≡ false) xs
is_empty-filter p [] e = tt
is_empty-filter p (x ∷ xs) e = ground (arith, is_empty-filter p xs)

nonempty : (xs : List Arc) → is_empty xs ≡ false → 0 < length xs
nonempty [] e = cc
nonempty (x ∷ xs) e = omega arith

-- Given random draws in range, `select_upstream` never panics. It finds nothing exactly when no
-- upstream of the pool is available, and then changes nothing; otherwise it returns an upstream of
-- the pool that is available, and changes no more than the round-robin counter.
pub select_upstream_total :
    (heap : Heap) (draw : ℕ → ℕ) (pool : UpstreamPool)
    → ((n : ℕ) → 0 < n → draw n < n)
    → ((select_upstream heap draw pool ≡ returned (none, pool))
        × All (λ a. is_available (heap a) ≡ false) pool.upstreams)
      ⊎ ((u : Arc) × (select_upstream heap draw pool
            ≡ returned (
              some u,
              record pool { wrr_counter = counter_after pool.algorithm pool.wrr_counter },
            ))
          × In u pool.upstreams
          × (is_available (heap u) ≡ true))
unfolding select_upstream healthy_upstreams
select_upstream_total heap draw pool in_range =
    let healthy = filter (λ a. is_available (heap a)) pool.upstreams in
    elim (Bool-cases (is_empty healthy)) [
      | inl nothing ↦ inl (rw nothing, is_empty-filter _ pool.upstreams nothing)
      | inr filled ↦
          let (u, chosen, m) =
            select-In heap draw healthy pool.algorithm pool.wrr_counter
              (in_range _ (nonempty healthy filled)) in
          let (listed, available) = In-filter _ u pool.upstreams m in
          inr (u, rw (filled, chosen), listed, available)
    ]
