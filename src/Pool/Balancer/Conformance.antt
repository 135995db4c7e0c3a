-- ===== src/Pool/Balancer/Conformance.antt =====
-- src/pool/balancer.rs, the tests at its end, run on the model. The random draws are the argument of
-- the tests that draw.
mod Passes
use soroban_gate.Common.{
  ℕ, zero, suc, ◌+◌, ◌-◌, ◌*◌, ◌%◌, ◌≡◌, refl, Bool, true, false, not, ◌&&◌, ◌||◌, List, [], ◌∷◌,
  Option, none, some, String, ◌==◌, leb, ltb, str_eq, if◌then◌else◌, get_elem?,
}
use soroban_gate.Common.Outcome.{Outcome, returned, panicked}
use soroban_gate.Config.{LoadBalancingAlgorithm}
use soroban_gate.Pool.CircuitBreaker
use soroban_gate.Pool.CircuitBreaker.{CircuitBreaker, record_failure, available_in}
use soroban_gate.Pool.Upstream.{
  UpstreamState, Arc, Heap, healthy, unhealthy, is_available, active_connections,
}
use soroban_gate.Pool.Balancer
use soroban_gate.Pool.Balancer.{weighted_round_robin, weighted_from, least_connections, random}
use soroban_gate.Pool.Balancer.Trait
use soroban_gate.Pool.Balancer.Trait.{wrr_balancer, lc_balancer, random_balancer, select_wrr}

abbrev failures : ℕ → CircuitBreaker → CircuitBreaker
failures zero cb = cb
failures (suc n) cb = record_failure (failures n cb) 0

unfoldable upstream : String → ℕ → Bool → ℕ → UpstreamState
upstream url weight is_up connections =
    let cb = CircuitBreaker.new 5 30_000_000_000 0 in
    record {
      pool_name = "test";
      url = url;
      weight = weight;
      max_connections = none;
      mutable_ = record {
        health = if is_up then healthy else unhealthy;
        circuit_breaker = if is_up then cb else failures 5 cb;
        consecutive_successes = 0;
        consecutive_failures = 0;
      };
      connection_count = connections;
      latency_ns = 0;
    }

abbrev healthy_one : String → ℕ → UpstreamState
healthy_one url weight = upstream url weight true 0

-- The upstreams of a test, behind the addresses from 0 on.
abbrev or_last : Option UpstreamState → UpstreamState
or_last none = healthy_one "" 1
or_last (some u) = u

abbrev heap_of : List UpstreamState → Heap
heap_of us a = or_last (get_elem? us a)

abbrev has_url : Heap → Option Arc → String → Bool
has_url heap none url = false
has_url heap (some a) url = str_eq (heap a).url url

abbrev is_none : Option Arc → Bool
is_none none = true
is_none (some a) = false

-- `unwrap()` and the test of the selection, with what it leaves behind.
abbrev selected {ℓ} : {A : Type ℓ} → Outcome (Option Arc × A) → (Option Arc → A → Bool) → Bool
selected panicked test = false
selected (returned (o, a)) test = test o a

abbrev chosen : Outcome (Option Arc) → (Option Arc → Bool) → Bool
chosen panicked test = false
chosen (returned o) test = test o

-- The selections from a counter on have these addresses, in order.
abbrev wrr_order : Heap → List Arc → ℕ → List String → Bool
wrr_order heap us counter [] = true
wrr_order heap us counter (url ∷ urls) =
    selected (weighted_round_robin heap us counter)
      (λ o next. has_url heap o url && wrr_order heap us next urls)

unfoldable test_wrr_empty_returns_none : Bool
test_wrr_empty_returns_none =
    selected (weighted_round_robin (heap_of []) [] 0) (λ o next. is_none o)

unfoldable test_wrr_single_upstream_always_returns_it : Bool
test_wrr_single_upstream_always_returns_it =
    wrr_order (heap_of (healthy_one "a" 1 ∷ [])) (0 ∷ []) 0
      ("a" ∷ "a" ∷ "a" ∷ "a" ∷ "a" ∷ "a" ∷ "a" ∷ "a" ∷ "a" ∷ "a" ∷ [])

-- How often the address is selected, in a number of selections.
abbrev times_selected : Heap → List Arc → String → ℕ → ℕ → ℕ
times_selected heap us url counter zero = 0
times_selected heap us url counter (suc n) = elim (weighted_round_robin heap us counter) [
  | panicked ↦ 0
  | returned (o, next) ↦ (if has_url heap o url then 1 else 0) + times_selected heap us url next n
]

-- The ratio lies between 2 and 4.
unfoldable test_wrr_distribution_proportional_to_weights : Bool
test_wrr_distribution_proportional_to_weights =
    let heap = heap_of (healthy_one "heavy" 3 ∷ healthy_one "light" 1 ∷ []) in
    let heavy = times_selected heap (0 ∷ 1 ∷ []) "heavy" 0 400 in
    let light = times_selected heap (0 ∷ 1 ∷ []) "light" 0 400 in
    ltb 200 heavy && ltb 50 light && leb (2 * light) heavy && leb heavy (4 * light)

unfoldable test_wrr_cycles_correctly : Bool
test_wrr_cycles_correctly =
    wrr_order (heap_of (healthy_one "a" 1 ∷ healthy_one "b" 2 ∷ [])) (0 ∷ 1 ∷ []) 0
      ("a" ∷ "b" ∷ "b" ∷ "a" ∷ "b" ∷ "b" ∷ [])

unfoldable test_wrr_zero_weight_treated_as_one : Bool
test_wrr_zero_weight_treated_as_one =
    wrr_order (heap_of (healthy_one "a" 0 ∷ healthy_one "b" 1 ∷ [])) (0 ∷ 1 ∷ []) 0 ("a" ∷ "b" ∷ [])

unfoldable test_lc_empty_returns_none : Bool
test_lc_empty_returns_none = is_none (least_connections (heap_of []) [])

unfoldable test_lc_picks_upstream_with_fewest_connections : Bool
test_lc_picks_upstream_with_fewest_connections =
    let heap =
      heap_of
        (upstream "busy" 1 true 10 ∷ upstream "idle" 1 true 2 ∷ upstream "medium" 1 true 5 ∷ []) in
    has_url heap (least_connections heap (0 ∷ 1 ∷ 2 ∷ [])) "idle"

unfoldable test_lc_returns_single_upstream : Bool
test_lc_returns_single_upstream =
    let heap = heap_of (healthy_one "only" 1 ∷ []) in
    has_url heap (least_connections heap (0 ∷ [])) "only"

unfoldable test_lc_picks_first_when_tied : Bool
test_lc_picks_first_when_tied =
    let heap = heap_of (upstream "a" 1 true 5 ∷ upstream "b" 1 true 5 ∷ []) in
    has_url heap (least_connections heap (0 ∷ 1 ∷ [])) "a"

unfoldable test_random_empty_returns_none : Bool
test_random_empty_returns_none = chosen (random (λ n. 0) []) is_none

-- A test of the selection, for each draw of a list.
abbrev each_draw : List ℕ → List Arc → (Arc → Bool) → Bool
each_draw [] us test = true
each_draw (d ∷ ds) us test =
    chosen (random (λ n. d % n) us) (λ o. elim o [ none ↦ false | some a ↦ test a ])
    && each_draw ds us test

-- A hundred draws, as a counter gives them.
abbrev draws : ℕ → List ℕ
draws zero = []
draws (suc n) = n ∷ draws n

unfoldable test_random_never_returns_unhealthy : Bool
test_random_never_returns_unhealthy =
    let heap = heap_of (healthy_one "good" 1 ∷ healthy_one "good2" 1 ∷ []) in
    each_draw (draws 100) (0 ∷ 1 ∷ []) (λ a. is_available (heap a))

unfoldable test_random_returns_from_available_set : Bool
test_random_returns_from_available_set =
    let heap = heap_of (healthy_one "x" 1 ∷ healthy_one "y" 1 ∷ healthy_one "z" 1 ∷ []) in
    each_draw (draws 100) (0 ∷ 1 ∷ 2 ∷ [])
      (λ a. str_eq (heap a).url "x" || str_eq (heap a).url "y" || str_eq (heap a).url "z")

abbrev alone : Heap
alone = heap_of (healthy_one "a" 1 ∷ [])

unfoldable test_trait_dispatch_wrr : Bool
test_trait_dispatch_wrr =
    selected (wrr_balancer.select alone (λ n. 0) Trait.new (0 ∷ [])) (λ o b. has_url alone o "a")

unfoldable test_trait_dispatch_lc : Bool
test_trait_dispatch_lc =
    let heap = heap_of (upstream "busy" 1 true 10 ∷ upstream "idle" 1 true 1 ∷ []) in
    selected (lc_balancer.select heap (λ n. 0) (record {}) (0 ∷ 1 ∷ []))
      (λ o b. has_url heap o "idle")

unfoldable test_trait_dispatch_random : Bool
test_trait_dispatch_random =
    selected (random_balancer.select alone (λ n. 0) (record {}) (0 ∷ []))
      (λ o b. has_url alone o "a")

unfoldable test_select_dispatches_wrr : Bool
test_select_dispatches_wrr =
    selected (Balancer.select alone (λ n. 0) (0 ∷ []) LoadBalancingAlgorithm.wrr 0)
      (λ o next. has_url alone o "a")

unfoldable test_select_dispatches_lc : Bool
test_select_dispatches_lc =
    selected (Balancer.select alone (λ n. 0) (0 ∷ []) LoadBalancingAlgorithm.lc 0)
      (λ o next. has_url alone o "a")

unfoldable test_select_dispatches_random : Bool
test_select_dispatches_random =
    selected (Balancer.select alone (λ n. 0) (0 ∷ []) LoadBalancingAlgorithm.random 0)
      (λ o next. has_url alone o "a")

unfoldable test_select_empty_returns_none : Bool
test_select_empty_returns_none =
    selected (Balancer.select (heap_of []) (λ n. 0) [] LoadBalancingAlgorithm.wrr 0)
      (λ o next. is_none o)
