-- ===== src/Pool/Balancer.antt =====
-- src/pool/balancer.rs: the three ways to choose among the healthy upstreams. The draw of
-- `rand::thread_rng().gen_range(0..n)` is the argument `draw n`.
pub mod Tally
pub mod Expanded
pub mod Wrr
pub mod Choice
pub mod Trait
mod Conformance
mod Tests
use soroban_gate.Common.{
  ℕ, ◌+◌, ◌%◌, max, Bool, List, [], ◌∷◌, ◌++◌, Option, none, some, length, is_empty, replicate,
  if◌then◌else◌,
}
use soroban_gate.Common.Outcome.{Outcome, returned, panicked, index}
use soroban_gate.Common.Words.{ℤ, leb_ℤ, inc_u64}
use soroban_gate.Config.{LoadBalancingAlgorithm}
use soroban_gate.Pool.Upstream.{Arc, Heap, active_connections}

infixl 5 ◌>>=◌
abbrev pub ◌>>=◌ {ℓ κ} : {A : Type ℓ} {B : Type κ} → Outcome A → (A → Outcome B) → Outcome B
returned a >>= f = f a
panicked >>= f = panicked

-- The virtual list: the index of each upstream, as often as its weight says and at least once.
unfoldable pub weighted_from : Heap → ℕ → List Arc → List ℕ
weighted_from heap i [] = []
weighted_from heap i (u ∷ us) = replicate (max (heap u).weight 1) i ++ weighted_from heap (i + 1) us

-- The second part of the result is the atomic counter afterwards.
unfoldable pub weighted_round_robin : Heap → List Arc → ℕ → Outcome (Option Arc × ℕ)
weighted_round_robin heap healthy counter =
    let weighted = weighted_from heap 0 healthy in
    let chosen : Outcome (Option Arc × ℕ) = (do
      idx ← index weighted (counter % length weighted)
      u ← index healthy idx
      returned (some u, inc_u64 counter)) in
    if is_empty healthy
    then returned (none, counter)
    else if is_empty weighted
    then returned (none, counter)
    else chosen

-- `min_by_key` keeps the earlier of two elements with equal keys.
unfoldable pub min_by_key_from {ℓ} : {A : Type ℓ} → (A → ℤ) → A → List A → A
min_by_key_from key best [] = best
min_by_key_from key best (x ∷ xs) =
    min_by_key_from key (if leb_ℤ (key best) (key x) then best else x) xs

unfoldable pub least_connections : Heap → List Arc → Option Arc
least_connections heap [] = none
least_connections heap (u ∷ us) = some (min_by_key_from (λ a. active_connections (heap a)) u us)

unfoldable pub random : (ℕ → ℕ) → List Arc → Outcome (Option Arc)
random draw healthy =
    if is_empty healthy
    then returned none
    else (do u ← index healthy (draw (length healthy)); returned (some u))

unfoldable pub select :
    Heap → (ℕ → ℕ) → List Arc → LoadBalancingAlgorithm → ℕ → Outcome (Option Arc × ℕ)
select heap draw healthy LoadBalancingAlgorithm.wrr counter =
    weighted_round_robin heap healthy counter
select heap draw healthy LoadBalancingAlgorithm.lc counter =
    returned (least_connections heap healthy, counter)
select heap draw healthy LoadBalancingAlgorithm.random counter =
    random draw healthy >>= λ o. returned (o, counter)
