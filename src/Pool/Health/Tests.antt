-- ===== src/Pool/Health/Tests.antt =====
-- The theorems on src/pool/health.rs at concrete probes.
use soroban_gate.Common.{ℕ, Bool, List, [], ◌∷◌, none, arith, leb}
use soroban_gate.Config.{default_health_check}
use soroban_gate.Pool.Upstream
use soroban_gate.Pool.Upstream.{UpstreamState, Arc, Heap}
use soroban_gate.Pool.Health.{Probe, not_sent, responded, failed}
use soroban_gate.Pool.Health.Hysteresis.{
  outcomes, run_checks, Follows, run_checks-Follows, new-Follows,
}

abbrev below_300 : ℕ → Bool
below_300 status = leb status 299

abbrev fresh_upstream : UpstreamState
fresh_upstream = Upstream.new "main" "http://a" 1 none 0

abbrev probes : List (Probe × ℕ)
probes = (failed, 30) ∷ (not_sent, 20) ∷ (responded 200 5, 10) ∷ (responded 200 7, 5) ∷ []

run_checks-Follows_example :
    Follows below_300 default_health_check
      (outcomes below_300 probes)
      (run_checks below_300 default_health_check probes fresh_upstream)
run_checks-Follows_example =
    run_checks-Follows below_300 default_health_check probes fresh_upstream
      (new-Follows below_300 default_health_check "main" "http://a" 1 none 0) (omega arith)
