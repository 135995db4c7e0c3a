-- ===== src/Pool/Balancer/Conformance/Passes.antt =====
-- src/pool/balancer.rs: the file's tests pass on the model.
use soroban_gate.Common.{◌≡◌, true, refl}
use soroban_gate.Pool.CircuitBreaker
use soroban_gate.Pool.CircuitBreaker.{record_failure, available_in}
use soroban_gate.Pool.Upstream.{is_available, active_connections}
use soroban_gate.Pool.Balancer
use soroban_gate.Pool.Balancer.{
  weighted_round_robin, weighted_from, least_connections, random, min_by_key_from,
}
use soroban_gate.Pool.Balancer.Trait
use soroban_gate.Pool.Balancer.Trait.{select_wrr}
use soroban_gate.Pool.Balancer.Conformance.{
  upstream, test_wrr_empty_returns_none, test_wrr_single_upstream_always_returns_it,
  test_wrr_distribution_proportional_to_weights, test_wrr_cycles_correctly,
  test_wrr_zero_weight_treated_as_one, test_lc_empty_returns_none,
  test_lc_picks_upstream_with_fewest_connections, test_lc_returns_single_upstream,
  test_lc_picks_first_when_tied, test_random_empty_returns_none,
  test_random_never_returns_unhealthy, test_random_returns_from_available_set,
  test_trait_dispatch_wrr, test_trait_dispatch_lc, test_trait_dispatch_random,
  test_select_dispatches_wrr, test_select_dispatches_lc, test_select_dispatches_random,
  test_select_empty_returns_none,
}

test_wrr_empty_returns_none_passes : test_wrr_empty_returns_none ≡ true
unfolding test_wrr_empty_returns_none upstream weighted_round_robin weighted_from least_connections
    min_by_key_from random Balancer.select Trait.new select_wrr active_connections is_available
    CircuitBreaker.new CircuitBreaker.is_available available_in record_failure
test_wrr_empty_returns_none_passes = refl

test_wrr_single_upstream_always_returns_it_passes :
    test_wrr_single_upstream_always_returns_it ≡ true
unfolding test_wrr_single_upstream_always_returns_it upstream weighted_round_robin weighted_from
    least_connections min_by_key_from random Balancer.select Trait.new select_wrr active_connections
    is_available CircuitBreaker.new CircuitBreaker.is_available available_in record_failure
test_wrr_single_upstream_always_returns_it_passes = refl

test_wrr_distribution_proportional_to_weights_passes :
    test_wrr_distribution_proportional_to_weights ≡ true
unfolding test_wrr_distribution_proportional_to_weights upstream weighted_round_robin weighted_from
    least_connections min_by_key_from random Balancer.select Trait.new select_wrr active_connections
    is_available CircuitBreaker.new CircuitBreaker.is_available available_in record_failure
test_wrr_distribution_proportional_to_weights_passes = refl

test_wrr_cycles_correctly_passes : test_wrr_cycles_correctly ≡ true
unfolding test_wrr_cycles_correctly upstream weighted_round_robin weighted_from least_connections
    min_by_key_from random Balancer.select Trait.new select_wrr active_connections is_available
    CircuitBreaker.new CircuitBreaker.is_available available_in record_failure
test_wrr_cycles_correctly_passes = refl

test_wrr_zero_weight_treated_as_one_passes : test_wrr_zero_weight_treated_as_one ≡ true
unfolding test_wrr_zero_weight_treated_as_one upstream weighted_round_robin weighted_from
    least_connections min_by_key_from random Balancer.select Trait.new select_wrr active_connections
    is_available CircuitBreaker.new CircuitBreaker.is_available available_in record_failure
test_wrr_zero_weight_treated_as_one_passes = refl

test_lc_empty_returns_none_passes : test_lc_empty_returns_none ≡ true
unfolding test_lc_empty_returns_none upstream weighted_round_robin weighted_from least_connections
    min_by_key_from random Balancer.select Trait.new select_wrr active_connections is_available
    CircuitBreaker.new CircuitBreaker.is_available available_in record_failure
test_lc_empty_returns_none_passes = refl

test_lc_picks_upstream_with_fewest_connections_passes :
    test_lc_picks_upstream_with_fewest_connections ≡ true
unfolding test_lc_picks_upstream_with_fewest_connections upstream weighted_round_robin weighted_from
    least_connections min_by_key_from random Balancer.select Trait.new select_wrr active_connections
    is_available CircuitBreaker.new CircuitBreaker.is_available available_in record_failure
test_lc_picks_upstream_with_fewest_connections_passes = refl

test_lc_returns_single_upstream_passes : test_lc_returns_single_upstream ≡ true
unfolding test_lc_returns_single_upstream upstream weighted_round_robin weighted_from
    least_connections min_by_key_from random Balancer.select Trait.new select_wrr active_connections
    is_available CircuitBreaker.new CircuitBreaker.is_available available_in record_failure
test_lc_returns_single_upstream_passes = refl

test_lc_picks_first_when_tied_passes : test_lc_picks_first_when_tied ≡ true
unfolding test_lc_picks_first_when_tied upstream weighted_round_robin weighted_from
    least_connections min_by_key_from random Balancer.select Trait.new select_wrr active_connections
    is_available CircuitBreaker.new CircuitBreaker.is_available available_in record_failure
test_lc_picks_first_when_tied_passes = refl

test_random_empty_returns_none_passes : test_random_empty_returns_none ≡ true
unfolding test_random_empty_returns_none upstream weighted_round_robin weighted_from
    least_connections min_by_key_from random Balancer.select Trait.new select_wrr active_connections
    is_available CircuitBreaker.new CircuitBreaker.is_available available_in record_failure
test_random_empty_returns_none_passes = refl

test_random_never_returns_unhealthy_passes : test_random_never_returns_unhealthy ≡ true
unfolding test_random_never_returns_unhealthy upstream weighted_round_robin weighted_from
    least_connections min_by_key_from random Balancer.select Trait.new select_wrr active_connections
    is_available CircuitBreaker.new CircuitBreaker.is_available available_in record_failure
test_random_never_returns_unhealthy_passes = refl

test_random_returns_from_available_set_passes : test_random_returns_from_available_set ≡ true
unfolding test_random_returns_from_available_set upstream weighted_round_robin weighted_from
    least_connections min_by_key_from random Balancer.select Trait.new select_wrr active_connections
    is_available CircuitBreaker.new CircuitBreaker.is_available available_in record_failure
test_random_returns_from_available_set_passes = refl

test_trait_dispatch_wrr_passes : test_trait_dispatch_wrr ≡ true
unfolding test_trait_dispatch_wrr upstream weighted_round_robin weighted_from least_connections
    min_by_key_from random Balancer.select Trait.new select_wrr active_connections is_available
    CircuitBreaker.new CircuitBreaker.is_available available_in record_failure
test_trait_dispatch_wrr_passes = refl

test_trait_dispatch_lc_passes : test_trait_dispatch_lc ≡ true
unfolding test_trait_dispatch_lc upstream weighted_round_robin weighted_from least_connections
    min_by_key_from random Balancer.select Trait.new select_wrr active_connections is_available
    CircuitBreaker.new CircuitBreaker.is_available available_in record_failure
test_trait_dispatch_lc_passes = refl

test_trait_dispatch_random_passes : test_trait_dispatch_random ≡ true
unfolding test_trait_dispatch_random upstream weighted_round_robin weighted_from least_connections
    min_by_key_from random Balancer.select Trait.new select_wrr active_connections is_available
    CircuitBreaker.new CircuitBreaker.is_available available_in record_failure
test_trait_dispatch_random_passes = refl

test_select_dispatches_wrr_passes : test_select_dispatches_wrr ≡ true
unfolding test_select_dispatches_wrr upstream weighted_round_robin weighted_from least_connections
    min_by_key_from random Balancer.select Trait.new select_wrr active_connections is_available
    CircuitBreaker.new CircuitBreaker.is_available available_in record_failure
test_select_dispatches_wrr_passes = refl

test_select_dispatches_lc_passes : test_select_dispatches_lc ≡ true
unfolding test_select_dispatches_lc upstream weighted_round_robin weighted_from least_connections
    min_by_key_from random Balancer.select Trait.new select_wrr active_connections is_available
    CircuitBreaker.new CircuitBreaker.is_available available_in record_failure
test_select_dispatches_lc_passes = refl

test_select_dispatches_random_passes : test_select_dispatches_random ≡ true
unfolding test_select_dispatches_random upstream weighted_round_robin weighted_from
    least_connections min_by_key_from random Balancer.select Trait.new select_wrr active_connections
    is_available CircuitBreaker.new CircuitBreaker.is_available available_in record_failure
test_select_dispatches_random_passes = refl

test_select_empty_returns_none_passes : test_select_empty_returns_none ≡ true
unfolding test_select_empty_returns_none upstream weighted_round_robin weighted_from
    least_connections min_by_key_from random Balancer.select Trait.new select_wrr active_connections
    is_available CircuitBreaker.new CircuitBreaker.is_available available_in record_failure
test_select_empty_returns_none_passes = refl
