-- ===== src/Pool/Balancer/Choice.antt =====
-- src/pool/balancer.rs: what each algorithm chooses.
use soroban_gate.Common.{
  ℕ, zero, suc, ◌<◌, max, ◌≡◌, refl, sym, subst, ap, ◌⊎◌, inl, inr, true, false, List, [], ◌∷◌,
  ◌++◌, none, some, arith, In, In-append, All, length, replicate, get_elem?, get_elem?_lt,
  Bool-cases,
}
use soroban_gate.Common.Outcome.{returned}
use soroban_gate.Common.Words.{ℤ, pos, negsuc, leb_ℤ, inc_u64}
use soroban_gate.Config.{LoadBalancingAlgorithm}
use soroban_gate.Pool.Upstream.{Arc, Heap, active_connections}
use soroban_gate.Pool.Balancer.{min_by_key_from, least_connections, random, select}
use soroban_gate.Pool.Balancer.Expanded.{expanded, wrr-expanded}

leb_ℤ_total : (a b : ℤ) → leb_ℤ a b ≡ false → leb_ℤ b a ≡ true
leb_ℤ_total (pos a) (pos b) h = ground arith
leb_ℤ_total (pos a) (negsuc b) h = ground arith
leb_ℤ_total (negsuc a) (pos b) h = ground arith
leb_ℤ_total (negsuc a) (negsuc b) h = ground arith

leb_ℤ_trans : (a b c : ℤ) → leb_ℤ a b ≡ true → leb_ℤ b c ≡ true → leb_ℤ a c ≡ true
leb_ℤ_trans (pos a) (pos b) (pos c) h k = ground arith
leb_ℤ_trans (pos a) (pos b) (negsuc c) h k = ground arith
leb_ℤ_trans (pos a) (negsuc b) c h k = absurd (ground arith)
leb_ℤ_trans (negsuc a) (pos b) (pos c) h k = ground arith
leb_ℤ_trans (negsuc a) (pos b) (negsuc c) h k = absurd (ground arith)
leb_ℤ_trans (negsuc a) (negsuc b) (pos c) h k = ground arith
leb_ℤ_trans (negsuc a) (negsuc b) (negsuc c) h k = ground arith

-- The element stands in the list before all that have an equal key, and no key is less than its.
module _ (key : Arc → ℤ) where
  abbrev pub IsFirstMin : Arc → List Arc → Type 0
  IsFirstMin u us =
      (before : List Arc) × (after : List Arc) × (us ≡ before ++ u ∷ after)
      × All (λ v. leb_ℤ (key v) (key u) ≡ false) before
      × All (λ v. leb_ℤ (key u) (key v) ≡ true) after

  lt_trans :
      (a b c : Arc)
      → leb_ℤ (key a) (key b) ≡ false
      → leb_ℤ (key c) (key b) ≡ true
      → leb_ℤ (key a) (key c) ≡ false
  lt_trans a b c h k = elim (Bool-cases (leb_ℤ (key a) (key c))) [
    | inl le ↦ cc (leb_ℤ_trans (key a) (key c) (key b) le k)
    | inr e ↦ e
  ]

  le_lt_trans :
      (a b c : Arc)
      → leb_ℤ (key b) (key a) ≡ true
      → leb_ℤ (key b) (key c) ≡ false
      → leb_ℤ (key a) (key c) ≡ false
  le_lt_trans a b c h k = elim (Bool-cases (leb_ℤ (key a) (key c))) [
    | inl le ↦ cc (leb_ℤ_trans (key b) (key a) (key c) h le)
    | inr e ↦ e
  ]

  keep_best :
      (best x r : Arc) (xs before after : List Arc)
      → leb_ℤ (key best) (key x) ≡ true
      → best ∷ xs ≡ before ++ r ∷ after
      → All (λ v. leb_ℤ (key v) (key r) ≡ false) before
      → All (λ v. leb_ℤ (key r) (key v) ≡ true) after
      → IsFirstMin r (best ∷ x ∷ xs)
  keep_best best x r xs [] after le e greater least = ([], x ∷ after, cc, tt, (ground arith, least))
  keep_best best x r xs (b ∷ before) after le e greater least =
      (best ∷ x ∷ before, after, cc, (above, (le_lt_trans x best r le above, greater.1)), least)
    where
      above : leb_ℤ (key best) (key r) ≡ false
      above = ground arith

  replace_best :
      (best x r : Arc) (xs before after : List Arc)
      → leb_ℤ (key best) (key x) ≡ false
      → x ∷ xs ≡ before ++ r ∷ after
      → All (λ v. leb_ℤ (key v) (key r) ≡ false) before
      → All (λ v. leb_ℤ (key r) (key v) ≡ true) after
      → IsFirstMin r (best ∷ x ∷ xs)
  replace_best best x r xs [] after lt e greater least =
      (best ∷ [], after, ap (◌∷◌ best) e, (ground arith, tt), least)
  replace_best best x r xs (b ∷ before) after lt e greater least =
      (best ∷ b ∷ before, after, ap (◌∷◌ best) e, (above, greater), least)
    where
      below : leb_ℤ (key r) (key x) ≡ true
      below = ground (arith, leb_ℤ_total (key b) (key r) greater.0)

      above : leb_ℤ (key best) (key r) ≡ false
      above = lt_trans best x r lt below

  min_by_key_from-IsFirstMin :
      (best : Arc) (xs : List Arc) → IsFirstMin (min_by_key_from key best xs) (best ∷ xs)
  unfolding min_by_key_from
  min_by_key_from-IsFirstMin best [] = ([], [], refl, tt, tt)
  min_by_key_from-IsFirstMin best (x ∷ xs) = elim (Bool-cases (leb_ℤ (key best) (key x))) [
    | inl le ↦
        let (before, after, e, greater, least) = min_by_key_from-IsFirstMin best xs in
        rw (le) (keep_best best x _ xs before after le e greater least)
    | inr lt ↦
        let (before, after, e, greater, least) = min_by_key_from-IsFirstMin x xs in
        rw (lt) (replace_best best x _ xs before after lt e greater least)
  ]

module _ (heap : Heap) where
  -- Least-connections fails only on the empty list, and otherwise takes the first of the upstreams
  -- with the fewest active connections.
  pub least_connections-IsFirstMin :
      (us : List Arc)
      → ((us ≡ []) × (least_connections heap us ≡ none))
        ⊎ ((u : Arc) × (least_connections heap us ≡ some u)
            × IsFirstMin (λ a. active_connections (heap a)) u us)
  unfolding least_connections
  least_connections-IsFirstMin [] = inl (refl, refl)
  least_connections-IsFirstMin (u ∷ us) =
      inr (_, refl, min_by_key_from-IsFirstMin (λ a. active_connections (heap a)) u us)

In-middle : (u : Arc) (before after : List Arc) → In u (before ++ u ∷ after)
In-middle u [] after = inl refl
In-middle u (b ∷ before) after = inr (In-middle u before after)

get_elem?-In : (u : Arc) (xs : List Arc) (k : ℕ) → get_elem? xs k ≡ some u → In u xs
get_elem?-In u [] k e = cc
get_elem?-In u (x ∷ xs) zero e = inl (ground arith)
get_elem?-In u (x ∷ xs) (suc k) e = inr (get_elem?-In u xs k e)

In-replicate : (u v : Arc) (n : ℕ) → In u (replicate n v) → u ≡ v
In-replicate u v zero m = absurd m
In-replicate u v (suc n) (inl e) = e
In-replicate u v (suc n) (inr m) = In-replicate u v n m

In-expanded : (heap : Heap) (u : Arc) (us : List Arc) → In u (expanded heap us) → In u us
unfolding expanded
In-expanded heap u [] m = m
In-expanded heap u (v ∷ us) m =
    elim (In-append u (replicate (max (heap v).weight 1) v) (expanded heap us) m) [
      | inl here ↦ inl (In-replicate u v (max (heap v).weight 1) here)
      | inr there ↦ inr (In-expanded heap u us there)
    ]

-- What a selection may leave in the counter: only weighted round-robin moves it, by one.
abbrev pub counter_after : LoadBalancingAlgorithm → ℕ → ℕ
counter_after LoadBalancingAlgorithm.wrr c = inc_u64 c
counter_after LoadBalancingAlgorithm.lc c = c
counter_after LoadBalancingAlgorithm.random c = c

-- Given a random draw that is in range, a selection from a list that is not empty returns one of
-- its upstreams, whatever the algorithm: it neither panics nor finds nothing.
pub select-In :
    (heap : Heap) (draw : ℕ → ℕ) (us : List Arc) (algorithm : LoadBalancingAlgorithm) (counter : ℕ)
    → draw (length us) < length us
    → (u : Arc) × (select heap draw us algorithm counter
        ≡ returned (some u, counter_after algorithm counter))
      × In u us
unfolding select random
select-In heap draw [] algorithm counter h = elim h [ ]
select-In heap draw (v ∷ us) LoadBalancingAlgorithm.wrr counter h =
    let (u, chosen, at) = wrr-expanded heap (v ∷ us) counter (λ e. cc) in
    (u, chosen, In-expanded heap u (v ∷ us) (get_elem?-In u _ _ at))
select-In heap draw (v ∷ us) LoadBalancingAlgorithm.lc counter h =
    elim (least_connections-IsFirstMin heap (v ∷ us)) [
      | inl (e, _) ↦ absurd (cc)
      | inr (u, chosen, (before, after, e, _, _)) ↦
          (u, rw chosen, subst (In u) (sym e) (In-middle u before after))
    ]
select-In heap draw (v ∷ us) LoadBalancingAlgorithm.random counter h =
    let (u, at, m) = get_elem?_lt (v ∷ us) (draw (length (v ∷ us))) h in (u, ground (arith, at), m)
