-- ===== src/Pool/Balancer/Trait.antt =====
-- src/pool/balancer.rs: the trait `LoadBalancer` and its three implementations. A balancer is its
-- state with the method `select`, which gives the choice and the state afterwards.
use soroban_gate.Common.{ℕ, ◌≡◌, refl, List, Option}
use soroban_gate.Common.Outcome.{Outcome, returned, panicked}
use soroban_gate.Config.{LoadBalancingAlgorithm}
use soroban_gate.Pool.Upstream.{Arc, Heap}
use soroban_gate.Pool.Balancer
use soroban_gate.Pool.Balancer.{weighted_round_robin, least_connections, random, select, ◌>>=◌}

pub record LoadBalancer (A : Type 0) : Type 0 where
  pub select : Heap → (ℕ → ℕ) → A → List Arc → Outcome (Option Arc × A)

pub record WeightedRoundRobin : Type 0 where
  pub counter : ℕ

unfoldable pub new : WeightedRoundRobin
new = record { counter = 0 }

pub record LeastConnections : Type 0 where

pub record Random : Type 0 where

unfoldable pub select_wrr :
    Heap → WeightedRoundRobin → List Arc → Outcome (Option Arc × WeightedRoundRobin)
select_wrr heap b healthy = weighted_round_robin heap healthy b.counter >>= λ (o, counter).
    returned (o, record { counter = counter })

instance abbrev pub wrr_balancer : LoadBalancer WeightedRoundRobin
wrr_balancer = record { select = λ heap draw b healthy. select_wrr heap b healthy }

instance abbrev pub lc_balancer : LoadBalancer LeastConnections
lc_balancer = record {
  select = λ heap draw b healthy. returned (least_connections heap healthy, b);
}

instance abbrev pub random_balancer : LoadBalancer Random
random_balancer = record {
  select = λ heap draw b healthy. random draw healthy >>= λ o. returned (o, b);
}

-- The choice of a balancer, and the counter afterwards as its state gives it.
abbrev pub chosen : {A : Type 0} → (A → ℕ) → Outcome (Option Arc × A) → Outcome (Option Arc × ℕ)
chosen counter_of o = o >>= λ (u, b). returned (u, counter_of b)

-- What `select` does for an algorithm is what the balancer of this algorithm does.
pub select-LoadBalancer :
    (heap : Heap) (draw : ℕ → ℕ) (healthy : List Arc) (counter : ℕ)
    → (Balancer.select heap draw healthy LoadBalancingAlgorithm.wrr counter
        ≡ chosen
            (λ b. b.counter)
            (wrr_balancer.select heap draw (record { counter = counter }) healthy))
      × (Balancer.select heap draw healthy LoadBalancingAlgorithm.lc counter
          ≡ chosen (λ b. counter) (lc_balancer.select heap draw (record {}) healthy))
      × (Balancer.select heap draw healthy LoadBalancingAlgorithm.random counter
          ≡ chosen (λ b. counter) (random_balancer.select heap draw (record {}) healthy))
unfolding Balancer.select select_wrr
select-LoadBalancer heap draw healthy counter =
    (same_wrr (weighted_round_robin heap healthy counter), refl, same_random (random draw healthy))
  where
    same_wrr :
        (o : Outcome (Option Arc × ℕ))
        → o
          ≡ chosen
              (λ (b : WeightedRoundRobin). b.counter)
              (o >>= λ (u, c). returned (u, record { counter = c }))
    same_wrr (returned (u, c)) = refl
    same_wrr panicked = refl

    same_random :
        (o : Outcome (Option Arc))
        → (o >>= λ u. returned (u, counter))
          ≡ chosen (λ (b : Random). counter) (o >>= λ u. returned (u, record {}))
    same_random (returned u) = refl
    same_random panicked = refl
