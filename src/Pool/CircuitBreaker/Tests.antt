-- ===== src/Pool/CircuitBreaker/Tests.antt =====
-- The theorems on src/pool/circuit_breaker.rs at concrete breakers.
use soroban_gate.Common.{
  ℕ, ◌+◌, ◌<◌, ◌≤◌, ◌≡◌, ◌↔◌, false, List, [], ◌∷◌, arith, map, max, All, refl,
}
use soroban_gate.Pool.CircuitBreaker.{CircuitBreaker, closed, open_, is_available}
use soroban_gate.Pool.CircuitBreaker.Machine.{
  Call, try_half_opens, record_successes, record_failures, run, Inv, longest_streak, AreReports,
  run-closed_iff, open-until_cooldown,
}

abbrev two_strikes : CircuitBreaker
two_strikes = record {
  state = closed;
  failure_count = 0;
  failure_threshold = 2;
  cooldown = 30;
  last_state_change = 0;
}

abbrev tripped : CircuitBreaker
tripped = record two_strikes { state = open_; failure_count = 2; last_state_change = 10 }

two_strikes-Inv : Inv two_strikes
two_strikes-Inv = ground arith

abbrev reports : List (ℕ × Call)
reports =
    (1, record_failures) ∷ (2, record_successes) ∷ (3, record_failures) ∷ (4, record_failures) ∷ []

reports-AreReports : AreReports reports
reports-AreReports = ground arith

run-closed_iff_example :
    ((run two_strikes reports).state ≡ closed)
    ↔ (longest_streak 0 (map (λ c. c.1) reports) < max 1 2)
run-closed_iff_example = run-closed_iff two_strikes reports two_strikes-Inv refl reports-AreReports

abbrev meanwhile : List (ℕ × Call)
meanwhile = (12, try_half_opens) ∷ (20, record_successes) ∷ []

meanwhile_early : All (λ c. (10 ≤ c.0) × (c.0 < 10 + 30)) meanwhile
meanwhile_early = ground arith

open-until_cooldown_example : is_available (run tripped meanwhile) ≡ false
open-until_cooldown_example = open-until_cooldown tripped meanwhile refl meanwhile_early
