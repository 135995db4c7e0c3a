-- ===== src/Pool/Health/Recovery.antt =====
-- src/pool/health.rs: the cycles in which the probes of one upstream succeed, one after another.
use soroban_gate.Common.{
  ℕ, suc, ◌+◌, ◌-◌, ◌≤◌, ◌<◌, ◌≡◌, ◌⊎◌, ◌∙◌, ap, sym, refl, subst, inl, inr, Bool, true, false,
  List, [], ◌∷◌, ◌&&◌, length, map, In, All, arith, Bool-cases, leb, if◌then◌else◌,
}
use soroban_gate.Common.Words.{u32_mod, inc_u32}
use soroban_gate.Config.{HealthCheckConfig}
use soroban_gate.Pool.CircuitBreaker
use soroban_gate.Pool.CircuitBreaker.{
  CircuitBreaker, CircuitBreakerState, available_in, closed, open_, half_open, is_open,
  try_half_open,
}
use soroban_gate.Pool.Upstream.{UpstreamState, Arc, Heap, healthy, is_available}
use soroban_gate.Pool.Pools.{UpstreamPool}
use soroban_gate.Pool.Pools.Creation.{addresses}
use soroban_gate.Pool.Health.{
  Probe, not_sent, responded, failed, Probes, check_upstream, check_passed, run_health_check_cycle,
  run_cycles,
}
use soroban_gate.Pool.Health.Cycle.{Distinct, member_iff, cycle-checked}

-- The breaker takes traffic, or its cooldown is over at one of the times.
abbrev pub Ready : CircuitBreaker → List ℕ → Type 0
Ready cb ts =
    (CircuitBreaker.is_available cb ≡ true)
    ⊎ ((t : ℕ) × In t ts × (cb.cooldown ≤ t - cb.last_state_change))

not_open : (c : CircuitBreakerState) → is_open c ≡ false → available_in c ≡ true
unfolding available_in
not_open closed e = refl
not_open open_ e = cc
not_open half_open e = refl

try_half_open-Ready :
    (cb : CircuitBreaker) (t : ℕ) (ts : List ℕ) → Ready cb (t ∷ ts) → Ready (try_half_open cb t) ts
unfolding try_half_open CircuitBreaker.is_available CircuitBreaker.available_in
try_half_open-Ready cb t ts (inl on) = inl (ground (arith, on))
try_half_open-Ready cb t ts (inr (at, m, over)) =
    elim (Bool-cases (is_open cb.state && leb cb.cooldown (t - cb.last_state_change))) [
      | inl retried ↦ inl (ground (arith, retried))
      | inr kept ↦
          let same : try_half_open cb t ≡ cb = ground (arith, kept) in
          subst (λ x. Ready x ts) (sym same)
            (elim m [
              | inl e ↦ inl (not_open cb.state (ground (arith, kept, over, e)))
              | inr later ↦ inr (at, later, over)
            ])
    ]

module _ (is_success : ℕ → Bool) where
  abbrev pub Succeeds : Probe → Type 0
  Succeeds not_sent = ⊥
  Succeeds (responded status elapsed) = is_success status ≡ true
  Succeeds failed = ⊥

  -- The checks of one upstream in turn, the oldest first.
  abbrev checks : HealthCheckConfig → List (Probe × ℕ) → UpstreamState → UpstreamState
  checks cfg [] u = u
  checks cfg ((p, now) ∷ ps) u = checks cfg ps (check_upstream is_success cfg p now u)

  check_upstream-passed :
      (cfg : HealthCheckConfig) (p : Probe) (now : ℕ) (u : UpstreamState)
      → Succeeds p
      → let m = (check_upstream is_success cfg p now u).mutable_ in
        (m.circuit_breaker ≡ try_half_open u.mutable_.circuit_breaker now)
        × (m.consecutive_successes ≡ inc_u32 u.mutable_.consecutive_successes)
        × (m.health ≡ (
            if leb cfg.healthy_threshold (inc_u32 u.mutable_.consecutive_successes)
            then healthy
            else u.mutable_.health))
  unfolding check_upstream check_passed
  check_upstream-passed cfg not_sent now u s = absurd s
  check_upstream-passed cfg failed now u s = absurd s
  check_upstream-passed cfg (responded status elapsed) now u s =
      (ground (arith, s), ground (arith, s), ground (arith, s))

  checks-healthy :
      (cfg : HealthCheckConfig) (p : Probe × ℕ) (ps : List (Probe × ℕ)) (u : UpstreamState)
      → All (λ x. Succeeds x.0) (p ∷ ps)
      → u.mutable_.consecutive_successes + length (p ∷ ps) < u32_mod
      → cfg.healthy_threshold ≤ u.mutable_.consecutive_successes + length (p ∷ ps)
      → (checks cfg (p ∷ ps) u).mutable_.health ≡ healthy
  checks-healthy cfg (p, now) [] u (s, h) room enough =
      let (b, c, e) = check_upstream-passed cfg p now u s in ground (arith, c, e)
  checks-healthy cfg (p, now) (q ∷ ps) u (s, h) room enough =
      let v = check_upstream is_success cfg p now u in
      let (b, c, e) = check_upstream-passed cfg p now u s in
      let one : v.mutable_.consecutive_successes ≡ u.mutable_.consecutive_successes + 1 =
        ground (arith, c) in
      checks-healthy cfg q ps v h (omega (arith, one)) (omega (arith, one))

  checks-Ready :
      (cfg : HealthCheckConfig) (ps : List (Probe × ℕ)) (u : UpstreamState)
      → All (λ x. Succeeds x.0) ps
      → Ready u.mutable_.circuit_breaker (map (λ x. x.1) ps)
      → CircuitBreaker.is_available (checks cfg ps u).mutable_.circuit_breaker ≡ true
  checks-Ready cfg [] u h (inl on) = on
  checks-Ready cfg [] u h (inr (t, m, e)) = absurd m
  checks-Ready cfg ((p, now) ∷ ps) u (s, h) r =
      let (b, c, e) = check_upstream-passed cfg p now u s in
      checks-Ready cfg ps (check_upstream is_success cfg p now u) h (
        subst (λ x. Ready x (map (λ x. x.1) ps)) (sym b)
          (try_half_open-Ready u.mutable_.circuit_breaker now (map (λ x. x.1) ps) r))

  run_cycles-checks :
      (cfg : HealthCheckConfig) (cycles : List (Probes is_success)) (ps : List UpstreamPool)
      (heap : Heap) (a : Arc)
      → Distinct (addresses ps)
      → In a (addresses ps)
      → run_cycles is_success cfg cycles ps heap a
        ≡ checks cfg (map (λ probes. probes a) cycles) (heap a)
  unfolding run_cycles
  run_cycles-checks cfg [] ps heap a d m = refl
  run_cycles-checks cfg (probes ∷ later) ps heap a d m =
      let here = (member_iff a (addresses ps)).1 m in
      run_cycles-checks cfg later ps (run_health_check_cycle is_success cfg probes ps heap) a d m
      ∙ ap (checks cfg (map (λ probes. probes a) later))
          (cycle-checked is_success cfg probes ps heap a d ∙ ground (arith, here))

  -- The probes of one upstream, cycle by cycle.
  abbrev pub probes_of : Arc → List (Probes is_success) → List (Probe × ℕ)
  probes_of a = map (λ probes. probes a)

  length-probes_of :
      (a : Arc) (cycles : List (Probes is_success)) → length (probes_of a cycles) ≡ length cycles
  length-probes_of a [] = refl
  length-probes_of a (c ∷ cycles) = ap suc (length-probes_of a cycles)

  pub run_cycles-available :
      (cfg : HealthCheckConfig) (probes : Probes is_success) (later : List (Probes is_success))
      (ps : List UpstreamPool) (heap : Heap) (a : Arc)
      → Distinct (addresses ps)
      → In a (addresses ps)
      → All (λ x. Succeeds x.0) (probes_of a (probes ∷ later))
      → (heap a).mutable_.consecutive_successes + length (probes ∷ later) < u32_mod
      → cfg.healthy_threshold ≤ length (probes ∷ later)
      → Ready (heap a).mutable_.circuit_breaker (map (λ x. x.1) (probes_of a (probes ∷ later)))
      → is_available (run_cycles is_success cfg (probes ∷ later) ps heap a) ≡ true
  unfolding is_available
  run_cycles-available cfg probes later ps heap a d m passed room enough r =
      let same = run_cycles-checks cfg (probes ∷ later) ps heap a d m in
      let n : length (probes_of a later) ≡ length later = length-probes_of a later in
      let up =
        checks-healthy cfg (probes a) (probes_of a later) (heap a) passed (omega (arith, n))
          (omega (arith, n)) in
      let on = checks-Ready cfg (probes_of a (probes ∷ later)) (heap a) passed r in
      ap is_available same ∙ ground (arith, up, on)
