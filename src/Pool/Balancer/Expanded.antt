-- ===== src/Pool/Balancer/Expanded.antt =====
-- src/pool/balancer.rs: the list that one selection of weighted round-robin reads.
use native.Mathlib.Nat.{mod-lt}
use mathlib.Core.List.{append_assoc}
use soroban_gate.Common.{
  ℕ, zero, suc, ◌+◌, ◌%◌, ◌<◌, max, ◌≡◌, refl, subst, ◌≢◌, false, List, [], ◌∷◌, ◌++◌, some, arith,
  length, is_empty, replicate, get_elem?, count, if◌then◌else◌, ◌==◌, length-append,
  length-replicate,
}
use soroban_gate.Common.Outcome.{returned}
use soroban_gate.Common.Words.{inc_u64}
use soroban_gate.Pool.Upstream.{Arc, Heap}
use soroban_gate.Pool.Balancer.{weighted_from, weighted_round_robin}
use soroban_gate.Pool.Balancer.Tally.{count-append, count-replicate}

-- The effective weight of an upstream in a list that may hold it more than once.
abbrev pub weight_of : Heap → Arc → List Arc → ℕ
weight_of heap a [] = 0
weight_of heap a (u ∷ us) = (if u == a then max (heap u).weight 1 else 0) + weight_of heap a us

-- The sum of all effective weights: the length of one round.
abbrev pub total_weight : Heap → List Arc → ℕ
total_weight heap [] = 0
total_weight heap (u ∷ us) = max (heap u).weight 1 + total_weight heap us

-- The virtual list with the upstreams in place of their indices.
unfoldable pub expanded : Heap → List Arc → List Arc
expanded heap [] = []
expanded heap (u ∷ us) = replicate (max (heap u).weight 1) u ++ expanded heap us

pub length-expanded :
    (heap : Heap) (us : List Arc) → length (expanded heap us) ≡ total_weight heap us
unfolding expanded
length-expanded heap [] = refl
length-expanded heap (u ∷ us) = omega (
  arith,
  length-append (replicate (max (heap u).weight 1) u) (expanded heap us),
  length-replicate (max (heap u).weight 1) u,
  length-expanded heap us,
)

length-weighted :
    (heap : Heap) (i : ℕ) (us : List Arc) → length (weighted_from heap i us) ≡ total_weight heap us
unfolding weighted_from
length-weighted heap i [] = refl
length-weighted heap i (u ∷ us) = omega (
  arith,
  length-append (replicate (max (heap u).weight 1) i) (weighted_from heap (i + 1) us),
  length-replicate (max (heap u).weight 1) i,
  length-weighted heap (i + 1) us,
)

-- The indices `ws` into `all` stand for the upstreams `es`, one by one.
abbrev Resolves : List Arc → List ℕ → List Arc → Type 0
Resolves all [] [] = Unit
Resolves all (w ∷ ws) (e ∷ es) = (get_elem? all w ≡ some e) × Resolves all ws es
Resolves all _ _ = ⊥

Resolves-replicate :
    (all : List Arc) (n i : ℕ) (u : Arc) (ws : List ℕ) (es : List Arc)
    → get_elem? all i ≡ some u
    → Resolves all ws es
    → Resolves all (replicate n i ++ ws) (replicate n u ++ es)
Resolves-replicate all zero i u ws es e r = r
Resolves-replicate all (suc n) i u ws es e r = (e, Resolves-replicate all n i u ws es e r)

get_elem?-append : (pre us : List Arc) (u : Arc) → get_elem? (pre ++ u ∷ us) (length pre) ≡ some u
get_elem?-append [] us u = refl
get_elem?-append (p ∷ pre) us u = get_elem?-append pre us u

Resolves-weighted :
    (heap : Heap) (pre us : List Arc)
    → Resolves (pre ++ us) (weighted_from heap (length pre) us) (expanded heap us)
unfolding weighted_from expanded
Resolves-weighted heap pre [] = tt
Resolves-weighted heap pre (u ∷ us) =
    let longer : length (pre ++ u ∷ []) ≡ length pre + 1 = length-append pre (u ∷ []) in
    let ih = Resolves-weighted heap (pre ++ u ∷ []) us in
    let rest : Resolves (pre ++ u ∷ us) (weighted_from heap (length pre + 1) us)
        (expanded heap us) =
      subst (λ n. Resolves (pre ++ u ∷ us) (weighted_from heap n us) (expanded heap us)) longer
        (subst (λ l. Resolves l (weighted_from heap (length (pre ++ u ∷ [])) us) (expanded heap us))
          (append_assoc pre (u ∷ []) us) ih) in
    Resolves-replicate (pre ++ u ∷ us) (max (heap u).weight 1) (length pre) u _ _
      (get_elem?-append pre us u) rest

index-Resolves :
    (all : List Arc) (ws : List ℕ) (es : List Arc) (k : ℕ)
    → Resolves all ws es
    → k < length es
    → (i : ℕ) × (u : Arc) × (get_elem? ws k ≡ some i)
      × (get_elem? all i ≡ some u)
      × (get_elem? es k ≡ some u)
index-Resolves all [] [] k r h = elim h [ ]
index-Resolves all (w ∷ ws) (e ∷ es) zero r h = (w, e, refl, r.0, refl)
index-Resolves all (w ∷ ws) (e ∷ es) (suc k) r h = index-Resolves all ws es k r.1 (omega arith)
index-Resolves all [] (e ∷ es) k r h = absurd r
index-Resolves all (w ∷ ws) [] k r h = absurd r

total_weight-pos : (heap : Heap) (us : List Arc) → us ≢ [] → 0 < total_weight heap us
total_weight-pos heap [] n = absurd (n refl)
total_weight-pos heap (u ∷ us) n = omega arith

is_empty_of_get_elem? :
    (ws : List ℕ) (k : ℕ) {i : ℕ} → get_elem? ws k ≡ some i → is_empty ws ≡ false
is_empty_of_get_elem? [] k e = cc
is_empty_of_get_elem? (w ∷ ws) k e = refl

-- One selection reads the expanded list at the counter, modulo the length of a round.
pub wrr-expanded :
    (heap : Heap) (us : List Arc) (counter : ℕ)
    → us ≢ []
    → (u : Arc) × (weighted_round_robin heap us counter ≡ returned (some u, inc_u64 counter))
      × (get_elem? (expanded heap us) (counter % total_weight heap us) ≡ some u)
unfolding weighted_round_robin
wrr-expanded heap [] counter n = absurd (n refl)
wrr-expanded heap (v ∷ us) counter n =
    let all = v ∷ us in
    let positive = total_weight-pos heap all n in
    let inside : counter % total_weight heap all < length (expanded heap all) =
      rw (length-expanded heap all) (mod-lt counter positive) in
    let (i, u, at_i, at_u, at_k) =
      index-Resolves all _ _ (counter % total_weight heap all) (Resolves-weighted heap [] all)
        inside in
    let filled = is_empty_of_get_elem? (weighted_from heap 0 all) _ at_i in
    (u, ground (arith, length-weighted heap 0 all), at_k)

pub count-expanded :
    (heap : Heap) (a : Arc) (us : List Arc)
    → count (λ v. v == a) (expanded heap us) ≡ weight_of heap a us
unfolding expanded
count-expanded heap a [] = refl
count-expanded heap a (u ∷ us) = ground (
  arith,
  count-append (λ v. v == a) (replicate (max (heap u).weight 1) u) (expanded heap us),
  count-replicate a (max (heap u).weight 1) u,
  count-expanded heap a us,
)
