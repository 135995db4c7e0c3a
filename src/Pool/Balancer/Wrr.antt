-- ===== src/Pool/Balancer/Wrr.antt =====
-- src/pool/balancer.rs: a whole round of weighted round-robin.
use native.Mathlib.Nat.{mod-eq_of_lt}
use soroban_gate.Common.{
  ℕ, zero, suc, ◌+◌, ◌%◌, ◌<◌, ◌≡◌, refl, sym, ap, ◌∙◌, ◌≢◌, Bool, false, List, [], ◌∷◌, Option,
  none, some, arith, length, get_elem?, count, ◌==◌,
}
use soroban_gate.Common.Outcome.{Outcome, returned}
use soroban_gate.Common.Words.{inc_u64, u64_mod}
use soroban_gate.Pool.Upstream.{Arc, Heap}
use soroban_gate.Pool.Balancer.{weighted_round_robin, ◌>>=◌}
use soroban_gate.Pool.Balancer.Tally.{tally, tally-suc, tally-eq, tally-period, mod-add_self}
use soroban_gate.Pool.Balancer.Expanded.{
  weight_of, total_weight, expanded, length-expanded, wrr-expanded, count-expanded,
}

module _ (a : Arc) where
  abbrev pub found : Option Arc → Bool
  found none = false
  found (some u) = u == a

  tally-count :
      (us : List Arc) → tally (length us) (λ k. found (get_elem? us k)) 0 ≡ count (λ u. u == a) us
  tally-count [] = refl
  tally-count (u ∷ us) =
      let shifted = tally-suc (length us) (λ k. found (get_elem? (u ∷ us) k)) 0 in
      ground (arith, shifted, tally-count us)

-- `n` selections one after another, each with the counter that the one before it left.
unfoldable pub selections : ℕ → Heap → List Arc → ℕ → Outcome (List (Option Arc))
selections zero heap us counter = returned []
selections (suc n) heap us counter = do
  (chosen, counter') ← weighted_round_robin heap us counter
  rest ← selections n heap us counter'
  returned (chosen ∷ rest)

module _ (heap : Heap) (us : List Arc) (a : Arc) where
  abbrev chosen_at : ℕ → Bool
  chosen_at k = found a (get_elem? (expanded heap us) (k % total_weight heap us))

  selections-tally :
      (n counter : ℕ)
      → us ≢ []
      → counter + n < u64_mod
      → (sel : List (Option Arc)) × (selections n heap us counter ≡ returned sel)
        × (count (found a) sel ≡ tally n chosen_at counter)
  unfolding selections
  selections-tally zero counter filled room = ([], refl, refl)
  selections-tally (suc n) counter filled room =
      let (u, chosen, at) = wrr-expanded heap us counter filled in
      let next : inc_u64 counter ≡ suc counter = omega arith in
      let below : suc counter + n < u64_mod = omega arith in
      let (rest, more, tallied) = selections-tally n (suc counter) filled below in
      (some u ∷ rest, ground (arith, chosen, more), ground (arith, at, tallied))

  tally-round : us ≢ [] → tally (total_weight heap us) chosen_at 0 ≡ weight_of heap a us
  tally-round filled =
      tally-eq (total_weight heap us) chosen_at (λ k. found a (get_elem? (expanded heap us) k)) 0
        (λ k below. ap (λ r. found a (get_elem? (expanded heap us) r)) (mod-eq_of_lt (omega arith)))
      ∙ ap (λ n. tally n (λ k. found a (get_elem? (expanded heap us) k)) 0)
          (sym (length-expanded heap us))
      ∙ tally-count a (expanded heap us)
      ∙ count-expanded heap a us

  pub tally-whole :
      (counter : ℕ) → us ≢ [] → tally (total_weight heap us) chosen_at counter ≡ weight_of heap a us
  tally-whole counter filled =
      tally-period (total_weight heap us) counter chosen_at (λ k.
        ap (λ r. found a (get_elem? (expanded heap us) r)) (mod-add_self k (total_weight heap us)))
      ∙ tally-round filled

  -- In one round of as many selections as the weights add up to, wherever the counter stands and
  -- while it does not wrap, no selection panics and an upstream is chosen exactly as often as its
  -- weight says (a weight of zero counts as one).
  pub selections-proportional :
      (counter : ℕ)
      → us ≢ []
      → counter + total_weight heap us < u64_mod
      → (sel : List (Option Arc)) × (selections (total_weight heap us) heap us counter
          ≡ returned sel)
        × (count (found a) sel ≡ weight_of heap a us)
  selections-proportional counter filled room =
      let (sel, ran, tallied) = selections-tally (total_weight heap us) counter filled room in
      (sel, ran, tallied ∙ tally-whole counter filled)
