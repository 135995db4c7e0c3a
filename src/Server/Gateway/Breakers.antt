-- ===== src/Server/Gateway/Breakers.antt =====
-- src/pool/circuit_breaker.rs in use: what the gateway's own traffic and health checks do to the circuit breakers.
use soroban_gate.Common.{
  ℕ, ◌≡◌, ◌≢◌, ◌∙◌, ap, sym, refl, subst, Bool, List, [], ◌∷◌, ◌++◌, String, ◌==◌, Bool-cases, inl,
  inr, arith, All,
}
use soroban_gate.Common.Outcome.{Result, ok, err}
use soroban_gate.Config.{HealthCheckConfig}
use soroban_gate.Pool.CircuitBreaker.{CircuitBreaker, closed}
use soroban_gate.Pool.CircuitBreaker.Machine.{
  Call, try_half_opens, record_successes, record_failures, step, run, run-not_closed,
}
use soroban_gate.Pool.Upstream.{
  UpstreamState, Arc, Heap, update, increment_connection_count, decrement_connection_count,
}
use soroban_gate.Pool.Pools.{UpstreamPool}
use soroban_gate.Pool.Health.{
  Probes, Probe, not_sent, responded, failed, check_passed, check_failed, check_upstream, check_all,
  run_health_check_cycle, mark_healthy, mark_all, mark_pools,
}
use soroban_gate.Server.State.{Libraries, AppState}
use soroban_gate.Server.Middleware.Laws.{layers-kept}
use soroban_gate.Server.Proxy.{
  Pending, answered, forwarding, finish, Exchange, forward_to_upstream, finished, fail_upstream,
}
use soroban_gate.Server.Proxy.Laws.{begin-Frame}
use soroban_gate.Server.Gateway.{
  Gateway, Traffic, passes_layers, answers, forwards, completes, abandons, checks_health,
  marks_healthy,
}

abbrev pub NoSuccess : List (ℕ × Call) → Type 0
NoSuccess = All (λ c. c.1 ≢ record_successes)

-- A breaker came from another by calls that report no success.
abbrev pub Evolves : CircuitBreaker → CircuitBreaker → Type 0
Evolves cb cb' = (cs : List (ℕ × Call)) × NoSuccess cs × (cb' ≡ run cb cs)

abbrev breaker_at : Heap → Arc → CircuitBreaker
breaker_at heap a = (heap a).mutable_.circuit_breaker

NoSuccess-append : (xs ys : List (ℕ × Call)) → NoSuccess xs → NoSuccess ys → NoSuccess (xs ++ ys)
NoSuccess-append [] ys h k = k
NoSuccess-append (x ∷ xs) ys h k = (h.0, NoSuccess-append xs ys h.1 k)

run-append :
    (cb : CircuitBreaker) (xs ys : List (ℕ × Call)) → run cb (xs ++ ys) ≡ run (run cb xs) ys
unfolding run
run-append cb [] ys = refl
run-append cb (x ∷ xs) ys = run-append (step cb x) xs ys

Evolves-refl : (cb cb' : CircuitBreaker) → cb' ≡ cb → Evolves cb cb'
unfolding run
Evolves-refl cb cb' e = ([], tt, e)

Evolves-trans : (x y z : CircuitBreaker) → Evolves x y → Evolves y z → Evolves x z
Evolves-trans x y z (cs, n, e) (ds, m, f) =
    (cs ++ ds, NoSuccess-append cs ds n m, f ∙ ap (λ b. run b ds) e ∙ sym (run-append x cs ds))

check_upstream-Evolves :
    (is_success : ℕ → Bool) (cfg : HealthCheckConfig) (probe : Probe) (now : ℕ) (u : UpstreamState)
    → Evolves u.mutable_.circuit_breaker
        (check_upstream is_success cfg probe now u).mutable_.circuit_breaker
unfolding check_upstream check_passed check_failed run step
check_upstream-Evolves is_success cfg not_sent now u = ([], tt, refl)
check_upstream-Evolves is_success cfg (responded status elapsed) now u =
    elim (Bool-cases (is_success status)) [
      | inl e ↦ ((now, try_half_opens) ∷ [], ((λ q. cc), tt), ground (arith, e))
      | inr e ↦ ((now, try_half_opens) ∷ [], ((λ q. cc), tt), ground (arith, e))
    ]
check_upstream-Evolves is_success cfg failed now u =
    ((now, try_half_opens) ∷ [], ((λ q. cc), tt), refl)

update-Evolves :
    (heap : Heap) (b a : Arc) (f : UpstreamState → UpstreamState)
    → ((u : UpstreamState) → Evolves u.mutable_.circuit_breaker (f u).mutable_.circuit_breaker)
    → Evolves (breaker_at heap a) (breaker_at (update heap b f) a)
update-Evolves heap b a f h = elim (Bool-cases (b == a)) [
  | inl same ↦
      let here : f (heap a) ≡ update heap b f a = ground (arith, same) in
      subst (λ (u : UpstreamState). Evolves (breaker_at heap a) u.mutable_.circuit_breaker) here
        (h (heap a))
  | inr other ↦
      let there : update heap b f a ≡ heap a = ground (arith, other) in
      Evolves-refl (breaker_at heap a) (breaker_at (update heap b f) a)
        (ap (λ (u : UpstreamState). u.mutable_.circuit_breaker) there)
]

check_all-Evolves :
    (is_success : ℕ → Bool) (cfg : HealthCheckConfig) (probes : Probes is_success) (as_ : List Arc)
    (heap : Heap) (a : Arc)
    → Evolves (breaker_at heap a) (breaker_at (check_all is_success cfg probes as_ heap) a)
unfolding check_all
check_all-Evolves is_success cfg probes [] heap a = Evolves-refl (breaker_at heap a) _ refl
check_all-Evolves is_success cfg probes (b ∷ as_) heap a =
    let heap' = update heap b (check_upstream is_success cfg (probes b).0 (probes b).1) in
    Evolves-trans (breaker_at heap a) (breaker_at heap' a) _
      (update-Evolves heap b a (check_upstream is_success cfg (probes b).0 (probes b).1)
        (check_upstream-Evolves is_success cfg (probes b).0 (probes b).1))
      (check_all-Evolves is_success cfg probes as_ heap' a)

run_health_check_cycle-Evolves :
    (is_success : ℕ → Bool) (cfg : HealthCheckConfig) (probes : Probes is_success)
    (pools : List UpstreamPool) (heap : Heap) (a : Arc)
    → Evolves
        (breaker_at heap a)
        (breaker_at (run_health_check_cycle is_success cfg probes pools heap) a)
unfolding run_health_check_cycle
run_health_check_cycle-Evolves is_success cfg probes [] heap a =
    Evolves-refl (breaker_at heap a) _ refl
run_health_check_cycle-Evolves is_success cfg probes (p ∷ ps) heap a =
    let heap' = check_all is_success cfg probes p.upstreams heap in
    Evolves-trans (breaker_at heap a) (breaker_at heap' a) _
      (check_all-Evolves is_success cfg probes p.upstreams heap a)
      (run_health_check_cycle-Evolves is_success cfg probes ps heap' a)

mark_all-breaker :
    (as_ : List Arc) (heap : Heap) (a : Arc) → breaker_at (mark_all as_ heap) a ≡ breaker_at heap a
unfolding mark_all
mark_all-breaker [] heap a = refl
mark_all-breaker (b ∷ as_) heap a =
    mark_all-breaker as_ (update heap b mark_healthy) a ∙ ground arith

mark_pools-breaker :
    (pools : List UpstreamPool) (heap : Heap) (a : Arc)
    → breaker_at (mark_pools pools heap) a ≡ breaker_at heap a
unfolding mark_pools
mark_pools-breaker [] heap a = refl
mark_pools-breaker (p ∷ ps) heap a =
    mark_pools-breaker ps (mark_all p.upstreams heap) a ∙ mark_all-breaker p.upstreams heap a

module _ (l : Libraries) where
  finished-Evolves :
      (s : AppState l) (heap : Heap) (p : Pending)
      (result : Result (ℕ × List ℕ × List (String × String)) String) (now : ℕ) (a : Arc)
      → Evolves
          (breaker_at heap a)
          (breaker_at (finished l (record s { heap = heap }) p result now).0.heap a)
  unfolding run step
  finished-Evolves s heap p (ok (status, body, headers)) now a = ([], tt, refl)
  finished-Evolves s heap p (err e) now a =
      update-Evolves heap p.upstream a (fail_upstream l now)
        (λ u. ((now, record_failures) ∷ [], ((λ q. cc), tt), refl))

  finish-Evolves :
      (s : AppState l) (decimal : ℕ → String) (p : Pending) (x : Exchange l) (now : ℕ) (a : Arc)
      → Evolves (breaker_at s.heap a) (breaker_at (finish l s decimal p x now).0.heap a)
  unfolding finish decrement_connection_count
  finish-Evolves s decimal p x now a =
      let heap = update s.heap p.upstream decrement_connection_count in
      let result = forward_to_upstream l decimal s.config.server.request_timeout_ms x in
      Evolves-trans (breaker_at s.heap a) (breaker_at heap a)
        (breaker_at (finished l (record s { heap = heap }) p result now).0.heap a)
        (update-Evolves s.heap p.upstream a decrement_connection_count
          (λ u. Evolves-refl u.mutable_.circuit_breaker u.mutable_.circuit_breaker refl))
        (finished-Evolves s heap p result now a)

  -- Every upstream's breaker after a step of the gateway's own traffic or health checks.
  Traffic-Evolves :
      {g h : Gateway l}
      → Traffic l g h
      → (a : Arc) → Evolves (breaker_at g.state.heap a) (breaker_at h.state.heap a)
  unfolding increment_connection_count
  Traffic-Evolves {g} (passes_layers now request) a =
      let (limiter, metrics, e) = layers-kept l g.state now request in
      Evolves-refl _ _ (ap (λ s. breaker_at s.heap a) e)
  Traffic-Evolves {g} (answers draw now request s r range e) a =
      let (frame, same) = begin-Frame l g.state s draw now request (answered r) range e in
      Evolves-refl _ _ (ap (λ h. breaker_at h a) same)
  Traffic-Evolves {g} (forwards draw now request s p range e) a =
      let (frame, (added, q, found, listed, up)) =
        begin-Frame l g.state s draw now request (forwarding p) range e in
      subst (λ (h : Heap). Evolves (breaker_at g.state.heap a) (breaker_at h a)) (sym added)
        (update-Evolves g.state.heap p.upstream a increment_connection_count
          (λ u. Evolves-refl u.mutable_.circuit_breaker u.mutable_.circuit_breaker refl))
  Traffic-Evolves {g} (completes decimal before after p x now e) a =
      finish-Evolves g.state decimal p x now a
  Traffic-Evolves {g} (abandons before after p e) a = Evolves-refl _ _ refl
  Traffic-Evolves {g} (checks_health is_success cfg probes) a =
      run_health_check_cycle-Evolves is_success cfg probes g.state.pools g.state.heap a
  Traffic-Evolves {g} marks_healthy a =
      Evolves-refl _ _ (mark_pools-breaker g.state.pools g.state.heap a)

  -- Any number of steps, without the admin API.
  pub data Traffics : Gateway l → Gateway l → Type 1 where
    done : {g : Gateway l} → Traffics g g
    more : {g h k : Gateway l} → Traffic l g h → Traffics h k → Traffics g k

  -- Once the breaker of an upstream is not closed, no number of requests, successful or not, and no
  -- number of health checks closes it again: only the admin API does.
  pub Traffics-not_closed :
      {g h : Gateway l} (a : Arc)
      → Traffics g h
      → (g.state.heap a).mutable_.circuit_breaker.state ≢ closed
      → (h.state.heap a).mutable_.circuit_breaker.state ≢ closed
  Traffics-not_closed a done n = n
  Traffics-not_closed a (more {g} t ts) n =
      let (cs, no_success, e) = Traffic-Evolves t a in
      Traffics-not_closed a ts (
        subst (λ b. b.state ≢ closed) (sym e)
          (run-not_closed (breaker_at g.state.heap a) cs n no_success))
