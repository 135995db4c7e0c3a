-- ===== src/Server/Proxy/Balanced.antt =====
-- src/server/proxy.rs with src/pool/balancer.rs: which upstreams a row of requests goes to, with
-- weighted round-robin.
use soroban_gate.Common.{
  ℕ, suc, ◌+◌, ◌%◌, ◌<◌, ◌≡◌, ◌≢◌, ◌∙◌, ap, sym, refl, subst, Bool, true, false, List, [], ◌∷◌,
  Option, none, some, String, length, filter, is_empty, str_eq, str_eq_refl, Bool-cases, inl, inr,
  arith, get_elem?, count,
}
use soroban_gate.Common.Words.{u64_mod, inc_u64}
use soroban_gate.Common.Outcome.{Outcome, returned}
use soroban_gate.Config.{LoadBalancingAlgorithm}
use soroban_gate.Pool.Upstream.{Arc, Heap, update, is_available, increment_connection_count}
use soroban_gate.Pool.Pools.{UpstreamPool, healthy_upstreams, select_upstream}
use soroban_gate.Pool.Balancer.{select, ◌>>=◌}
use soroban_gate.Pool.Balancer.Tally.{tally}
use soroban_gate.Pool.Balancer.Expanded.{expanded, total_weight, weight_of, wrr-expanded}
use soroban_gate.Pool.Balancer.Wrr.{found, tally-whole}
use soroban_gate.Server.State.{Libraries, AppState}
use soroban_gate.Server.Proxy.{
  Begun, answered, forwarding, find_pool, put_pool, forward, start_forward,
}
use soroban_gate.Server.Proxy.Pools.{find_pool-name}
use soroban_gate.Server.Reports.Laws.{forward-selected}

abbrev SameWeights : Heap → Heap → Type 0
SameWeights h k = (a : Arc) → (h a).weight ≡ (k a).weight

abbrev SameAvailable : Heap → Heap → Type 0
SameAvailable h k = (a : Arc) → is_available (h a) ≡ is_available (k a)

expanded-same : (h k : Heap) (us : List Arc) → SameWeights h k → expanded h us ≡ expanded k us
unfolding expanded
expanded-same h k [] same = refl
expanded-same h k (u ∷ us) same = ground (arith, same u, expanded-same h k us same)

total_weight-same :
    (h k : Heap) (us : List Arc) → SameWeights h k → total_weight h us ≡ total_weight k us
total_weight-same h k [] same = refl
total_weight-same h k (u ∷ us) same = ground (arith, same u, total_weight-same h k us same)

filter-same :
    (h k : Heap) (us : List Arc)
    → SameAvailable h k
    → filter (λ a. is_available (h a)) us ≡ filter (λ a. is_available (k a)) us
filter-same h k [] same = refl
filter-same h k (u ∷ us) same = ground (arith, same u, filter-same h k us same)

find_pool-put_pool :
    (name : String) (p q : UpstreamPool) (ps : List UpstreamPool)
    → find_pool name ps ≡ some p
    → q.name ≡ name
    → find_pool name (put_pool q ps) ≡ some q
unfolding find_pool put_pool
find_pool-put_pool name p q [] found_p named = cc
find_pool-put_pool name p q (r ∷ ps) found_p named = elim (Bool-cases (str_eq r.name name)) [
  | inl same ↦
      let here : str_eq r.name q.name ≡ true =
        subst (λ n. str_eq r.name n ≡ true) (sym named) same in
      let mine : str_eq q.name name ≡ true =
        subst (λ n. str_eq q.name n ≡ true) named (str_eq_refl q.name) in
      ground (arith, here, mine)
  | inr other ↦
      let there : str_eq r.name q.name ≡ false =
        subst (λ n. str_eq r.name n ≡ false) (sym named) other in
      ground
        (arith, there, other, find_pool-put_pool name p q ps (ground (arith, found_p, other)) named)
]

not_empty : (us : List Arc) → us ≢ [] → is_empty us ≡ false
not_empty [] n = absurd (n refl)
not_empty (u ∷ us) n = refl

incremented-available :
    (h : Heap) (u : Arc) → SameAvailable (update h u increment_connection_count) h
unfolding increment_connection_count is_available
incremented-available h u a = ground arith

incremented-weights : (h : Heap) (u : Arc) → SameWeights (update h u increment_connection_count) h
unfolding increment_connection_count
incremented-weights h u a = ground arith

module _ (l : Libraries) where
  -- The upstream that a request comes to wait for.
  abbrev destination : Begun → Option Arc
  destination (answered r) = none
  destination (forwarding p) = some p.upstream

  -- A row of requests to one pool that the cache does not answer, each with its random draws,
  -- its method and its body.
  unfoldable pub forwards :
      AppState l
      → String
      → List ((ℕ → ℕ) × String × List ℕ)
      → Outcome (AppState l × List (Option Arc))
  unfolding forward
  forwards s name [] = returned (s, [])
  forwards s name ((draw, method, body) ∷ rest) = forward l s draw method name body >>= λ (s', b).
      forwards s' name rest >>= λ (s'', us). returned (s'', destination b ∷ us)

  -- The pool is as it was, but for its counter, and its upstreams have kept their weights and are
  -- as available as they were.
  record Going (heap : Heap) (p : UpstreamPool) (name : String) (counter : ℕ) (s : AppState l)
      : Type 0 where
    there : find_pool name s.pools ≡ some (record p { wrr_counter = counter })
    weights : SameWeights s.heap heap
    available : SameAvailable s.heap heap

  module _ (heap : Heap) (p : UpstreamPool) (name : String) (named : p.name ≡ name)
      (weighted : p.algorithm ≡ LoadBalancingAlgorithm.wrr) (up : healthy_upstreams heap p ≢ [])
      (a : Arc) where
    abbrev healthy : List Arc
    healthy = healthy_upstreams heap p

    abbrev goes_at : ℕ → Bool
    goes_at k = found a (get_elem? (expanded heap healthy) (k % total_weight heap healthy))

    selects :
        (s : AppState l) (draw : ℕ → ℕ) (counter : ℕ)
        → Going heap p name counter s
        → (u : Arc) × (select_upstream s.heap draw (record p { wrr_counter = counter })
            ≡ returned (some u, record p { wrr_counter = inc_u64 counter }))
          × (get_elem? (expanded heap healthy) (counter % total_weight heap healthy) ≡ some u)
    unfolding healthy_upstreams select_upstream select
    selects s draw counter g =
        let same_list = filter-same s.heap heap p.upstreams g.available in
        let (u, chosen, at) = wrr-expanded s.heap healthy counter up in
        let some_up : is_empty healthy ≡ false = not_empty healthy up in
        (
          u,
          ground (arith, same_list, weighted, chosen, some_up),
          ap (λ e. get_elem? e (counter % total_weight heap healthy))
                (sym (expanded-same s.heap heap healthy g.weights))
              ∙ ap (λ n. get_elem? (expanded s.heap healthy) (counter % n))
                  (sym (total_weight-same s.heap heap healthy g.weights))
              ∙ at,
        )

    forward-Going :
        (s : AppState l) (draw : ℕ → ℕ) (method : String) (body : List ℕ) (counter : ℕ)
        → Going heap p name counter s
        → (s' : AppState l) × (b : Begun) × (forward l s draw method name body ≡ returned (s', b))
          × (found a (destination b) ≡ goes_at counter)
          × Going heap p name (inc_u64 counter) s'
    unfolding healthy_upstreams
    forward-Going s draw method body counter g =
        let q : UpstreamPool = record p { wrr_counter = counter } in
        let q' : UpstreamPool = record p { wrr_counter = inc_u64 counter } in
        let (u, selected, at) = selects s draw counter g in
        let s' : AppState l = record s {
          pools = put_pool q' s.pools;
          heap = update s.heap u increment_connection_count;
        } in
        (
          s',
          forwarding (record { upstream = u; method = method; pool_name = name; body = body }),
          forward-selected l s draw method name body q g.there
              ∙ ap (start_forward l s method name body) selected,
          ap (found a) (sym at),
          record {
            there = find_pool-put_pool name q q' s.pools g.there named;
            weights = λ b. incremented-weights s.heap u b ∙ g.weights b;
            available = λ b. incremented-available s.heap u b ∙ g.available b;
          },
        )

    forwards-tally :
        (s : AppState l) (rs : List ((ℕ → ℕ) × String × List ℕ)) (counter : ℕ)
        → Going heap p name counter s
        → counter + length rs < u64_mod
        → (s' : AppState l) × (us : List (Option Arc)) × (forwards s name rs ≡ returned (s', us))
          × (count (found a) us ≡ tally (length rs) goes_at counter)
    unfolding forwards
    forwards-tally s [] counter g room = (s, [], refl, refl)
    forwards-tally s ((draw, method, body) ∷ rest) counter g room =
        let (t, b, went, at, g') = forward-Going s draw method body counter g in
        let next : inc_u64 counter ≡ suc counter = omega arith in
        let (s', us, more, tallied) =
          forwards-tally t rest (suc counter) (subst (λ c. Going heap p name c t) next g')
            (omega arith) in
        (s', destination b ∷ us, ground (arith, went, more), ground (arith, at, tallied))

  -- Of as many requests in a row to a pool with weighted round-robin as the weights of its available
  -- upstreams add up to, each of these upstreams gets exactly as many as its weight says (a weight
  -- of zero counts as one), wherever the counter of the pool stands and while it does not wrap.
  -- The requests are those that the cache does not answer, and meanwhile nothing changes which
  -- upstreams are available.
  pub forwards-proportional :
      (s : AppState l) (name : String) (p : UpstreamPool) (a : Arc)
      (rs : List ((ℕ → ℕ) × String × List ℕ))
      → find_pool name s.pools ≡ some p
      → p.algorithm ≡ LoadBalancingAlgorithm.wrr
      → healthy_upstreams s.heap p ≢ []
      → length rs ≡ total_weight s.heap (healthy_upstreams s.heap p)
      → p.wrr_counter + length rs < u64_mod
      → (s' : AppState l) × (us : List (Option Arc)) × (forwards s name rs ≡ returned (s', us))
        × (count (found a) us ≡ weight_of s.heap a (healthy_upstreams s.heap p))
  forwards-proportional s name p a rs there weighted up round room =
      let going : Going s.heap p name p.wrr_counter s = record {
        there = there;
        weights = λ b. refl;
        available = λ b. refl;
      } in
      let (s', us, ran, tallied) =
        forwards-tally s.heap p name (find_pool-name name p s.pools there) weighted up a s rs
          p.wrr_counter going room in
      let once : tally (length rs)
            (goes_at s.heap p name (find_pool-name name p s.pools there) weighted up a)
            p.wrr_counter
          ≡ weight_of s.heap a (healthy_upstreams s.heap p) =
        rw round (tally-whole s.heap (healthy_upstreams s.heap p) a p.wrr_counter up) in
      (s', us, ran, tallied ∙ once)
