-- ===== src/Pool/Health/Hysteresis.antt =====
-- src/pool/health.rs: an independent description of the health status of an upstream by the history
-- of its probes.
use soroban_gate.Common.{
  ℕ, suc, ◌≤◌, ◌<◌, ◌≡◌, refl, Bool, true, false, List, [], ◌∷◌, Option, arith, length,
  if◌then◌else◌, leb, String,
}
use soroban_gate.Common.Words.{u32_mod}
use soroban_gate.Config.{HealthCheckConfig}
use soroban_gate.Pool.Upstream.{UpstreamState, HealthStatus, healthy, unhealthy}
use soroban_gate.Pool.Upstream
use soroban_gate.Pool.Health.{
  Probe, not_sent, responded, failed, check_upstream, check_passed, check_failed, retry_breaker,
}

-- How many of the latest outcomes are `b` in a row. Histories have the newest outcome first.
abbrev pub streak : Bool → List Bool → ℕ
streak b [] = 0
streak true (true ∷ h) = suc (streak true h)
streak true (false ∷ h) = 0
streak false (false ∷ h) = suc (streak false h)
streak false (true ∷ h) = 0

-- The status that a history of outcomes calls for: it turns healthy when the successes in a row
-- reach the one threshold, turns unhealthy when the failures in a row reach the other, and else
-- stays; it starts unhealthy.
abbrev pub verdict : HealthCheckConfig → List Bool → HealthStatus
verdict cfg [] = unhealthy
verdict cfg (true ∷ h) =
    if leb cfg.healthy_threshold (streak true (true ∷ h)) then healthy else verdict cfg h
verdict cfg (false ∷ h) =
    if leb cfg.unhealthy_threshold (streak false (false ∷ h)) then unhealthy else verdict cfg h

module _ (is_success : ℕ → Bool) where
  -- The outcomes of the probes that were sent.
  abbrev pub outcomes : List (Probe × ℕ) → List Bool
  outcomes [] = []
  outcomes ((not_sent, now) ∷ ps) = outcomes ps
  outcomes ((responded status elapsed, now) ∷ ps) = is_success status ∷ outcomes ps
  outcomes ((failed, now) ∷ ps) = false ∷ outcomes ps

  -- The checks of one upstream, newest first.
  unfoldable pub run_checks : HealthCheckConfig → List (Probe × ℕ) → UpstreamState → UpstreamState
  run_checks cfg [] u = u
  run_checks cfg ((p, now) ∷ ps) u = check_upstream is_success cfg p now (run_checks cfg ps u)

  pub record Follows (cfg : HealthCheckConfig) (h : List Bool) (u : UpstreamState) : Type 0 where
    pub health : u.mutable_.health ≡ verdict cfg h
    pub successes : u.mutable_.consecutive_successes ≡ streak true h
    pub failures : u.mutable_.consecutive_failures ≡ streak false h

  streak-le : (b : Bool) (h : List Bool) → streak b h ≤ length h
  streak-le b [] = omega arith
  streak-le true (true ∷ h) = omega (arith, streak-le true h)
  streak-le true (false ∷ h) = omega arith
  streak-le false (true ∷ h) = omega arith
  streak-le false (false ∷ h) = omega (arith, streak-le false h)

  check_passed-Follows :
      (cfg : HealthCheckConfig) (h : List Bool) (u : UpstreamState) (elapsed : ℕ)
      → suc (length h) < u32_mod
      → Follows cfg h u
      → Follows cfg (true ∷ h) (check_passed is_success cfg elapsed u)
  unfolding check_passed
  check_passed-Follows cfg h u elapsed room f =
      ground (arith, streak-le true h, f.health, f.successes)

  check_failed-Follows :
      (cfg : HealthCheckConfig) (h : List Bool) (u : UpstreamState)
      → suc (length h) < u32_mod
      → Follows cfg h u
      → Follows cfg (false ∷ h) (check_failed is_success cfg u)
  unfolding check_failed
  check_failed-Follows cfg h u room f = ground (arith, streak-le false h, f.health, f.failures)

  retry_breaker-Follows :
      (cfg : HealthCheckConfig) (h : List Bool) (u : UpstreamState) (now : ℕ)
      → Follows cfg h u
      → Follows cfg h (retry_breaker is_success now u)
  retry_breaker-Follows cfg h u now f = record {
    health = f.health;
    successes = f.successes;
    failures = f.failures;
  }

  check_reply-Follows :
      (cfg : HealthCheckConfig) (h : List Bool) (u : UpstreamState) (elapsed : ℕ) (b : Bool)
      → suc (length h) < u32_mod
      → Follows cfg h u
      → Follows cfg
          (b ∷ h)
          (if b then check_passed is_success cfg elapsed u else check_failed is_success cfg u)
  check_reply-Follows cfg h u elapsed true room f = check_passed-Follows cfg h u elapsed room f
  check_reply-Follows cfg h u elapsed false room f = check_failed-Follows cfg h u room f

  -- After any sequence of checks the status of an upstream is the one that the history of its
  -- probes calls for, and the two counters are the lengths of the current runs of successes and
  -- failures, as long as fewer than 2^32 probes have been sent. Probes that could not be sent
  -- count for nothing.
  pub run_checks-Follows :
      (cfg : HealthCheckConfig) (ps : List (Probe × ℕ)) (u : UpstreamState)
      → Follows cfg [] u
      → length (outcomes ps) < u32_mod
      → Follows cfg (outcomes ps) (run_checks cfg ps u)
  unfolding run_checks check_upstream
  run_checks-Follows cfg [] u f room = f
  run_checks-Follows cfg ((not_sent, now) ∷ ps) u f room = run_checks-Follows cfg ps u f room
  run_checks-Follows cfg ((responded status elapsed, now) ∷ ps) u f room =
      check_reply-Follows cfg (outcomes ps) _ elapsed (is_success status) room (
        retry_breaker-Follows cfg (outcomes ps) _ now (run_checks-Follows cfg ps u f (omega arith)))
  run_checks-Follows cfg ((failed, now) ∷ ps) u f room =
      check_failed-Follows cfg (outcomes ps) _ room (
        retry_breaker-Follows cfg (outcomes ps) _ now (run_checks-Follows cfg ps u f (omega arith)))

-- A new upstream has the empty history.
pub new-Follows :
    (is_success : ℕ → Bool) (cfg : HealthCheckConfig) (pool url : String) (weight : ℕ)
    (limit : Option ℕ) (now : ℕ)
    → Follows is_success cfg [] (Upstream.new pool url weight limit now)
unfolding Upstream.new
new-Follows is_success cfg pool url weight limit now = record {
  health = refl;
  successes = refl;
  failures = refl;
}
