-- ===== src/Pool/CircuitBreaker/Machine.antt =====
-- src/pool/circuit_breaker.rs: the breaker as a state machine: an invariant of its counter, what a run of calls does,
-- and the calls after which it takes traffic again.
use soroban_gate.Common.{
  ℕ, suc, ◌+◌, ◌≤◌, ◌<◌, max, ◌≡◌, refl, ◌≢◌, ◌↔◌, ◌⊎◌, inl, inr, true, false, List, [], ◌∷◌, arith,
  All, map,
}
use soroban_gate.Common.Words.{u32_mod}
use soroban_gate.Pool.CircuitBreaker.{
  CircuitBreaker, closed, open_, new, is_available, try_half_open, record_success, record_failure,
}

pub data Call : Type 0 where
  try_half_opens record_successes record_failures : Call

-- One call at a time of the clock.
unfoldable pub step : CircuitBreaker → ℕ × Call → CircuitBreaker
step cb (now, try_half_opens) = try_half_open cb now
step cb (now, record_successes) = record_success cb now
step cb (now, record_failures) = record_failure cb now

unfoldable pub run : CircuitBreaker → List (ℕ × Call) → CircuitBreaker
run cb [] = cb
run cb (c ∷ cs) = run (step cb c) cs

-- While the breaker is closed the counter is below the threshold, so its `+= 1` never wraps; it
-- never passes the threshold at all, except that a threshold of zero acts as one.
pub record Inv (cb : CircuitBreaker) : Type 0 where
  pub fits : cb.failure_threshold < u32_mod
  pub bounded : cb.failure_count ≤ max 1 cb.failure_threshold
  pub below : (cb.state ≢ closed) ⊎ (cb.failure_count < max 1 cb.failure_threshold)

pub new-Inv : (threshold cooldown now : ℕ) → threshold < u32_mod → Inv (new threshold cooldown now)
unfolding new
new-Inv threshold cooldown now h = ground arith

-- Every call keeps the failure counter within the threshold, and below it while the breaker is
-- closed, so that the counter's increment never wraps.
pub step-Inv : (cb : CircuitBreaker) (c : ℕ × Call) → Inv cb → Inv (step cb c)
unfolding step try_half_open record_success record_failure
step-Inv cb (now, try_half_opens) v = ground arith
step-Inv cb (now, record_successes) v = ground arith
step-Inv cb (now, record_failures) v = ground arith

-- The longest run of failures among the calls, where `n` failures came just before them.
abbrev pub longest_streak : ℕ → List Call → ℕ
longest_streak n [] = n
longest_streak n (record_failures ∷ cs) = longest_streak (suc n) cs
longest_streak n (record_successes ∷ cs) = max n (longest_streak 0 cs)
longest_streak n (try_half_opens ∷ cs) = longest_streak n cs

pub le-longest_streak : (n : ℕ) (cs : List Call) → n ≤ longest_streak n cs
le-longest_streak n [] = omega arith
le-longest_streak n (record_failures ∷ cs) = omega (arith, le-longest_streak (suc n) cs)
le-longest_streak n (record_successes ∷ cs) = omega arith
le-longest_streak n (try_half_opens ∷ cs) = le-longest_streak n cs

-- Calls that report the fate of requests, without the one that retries an open breaker.
abbrev pub AreReports : List (ℕ × Call) → Type 0
AreReports = All (λ c. c.1 ≢ try_half_opens)

pub open_stays :
    (cb : CircuitBreaker) (cs : List (ℕ × Call))
    → AreReports cs
    → cb.state ≡ open_
    → (run cb cs).state ≡ open_
unfolding run step record_success record_failure
open_stays cb [] h e = e
open_stays cb ((now, try_half_opens) ∷ cs) h e = absurd (h.0 refl)
open_stays cb ((now, record_successes) ∷ cs) h e =
    open_stays (record_success cb now) cs h.1 (ground arith)
open_stays cb ((now, record_failures) ∷ cs) h e =
    open_stays (record_failure cb now) cs h.1 (ground arith)

success_closed :
    (cb : CircuitBreaker) (now : ℕ)
    → cb.state ≡ closed
    → let cb' = record_success cb now in
      (cb'.state ≡ closed)
      × (cb'.failure_count ≡ 0)
      × (cb'.failure_threshold ≡ cb.failure_threshold)
unfolding record_success
success_closed cb now e = ground arith

-- What one failure does to a closed breaker.
abbrev AfterFailure : CircuitBreaker → CircuitBreaker → Type 0
AfterFailure cb cb' =
    (cb'.failure_threshold ≡ cb.failure_threshold)
    × (((cb.failure_count + 1 < max 1 cb.failure_threshold)
          × (cb'.state ≡ closed)
          × (cb'.failure_count ≡ cb.failure_count + 1))
        ⊎ ((max 1 cb.failure_threshold ≤ cb.failure_count + 1) × (cb'.state ≡ open_)))

failure_closed :
    (cb : CircuitBreaker) (now : ℕ)
    → Inv cb
    → cb.state ≡ closed
    → AfterFailure cb (record_failure cb now)
unfolding record_failure
failure_closed cb now v e = ground arith

-- A closed breaker opens, under reports of successes and failures, exactly when as many failures
-- come in a row as the threshold says (one, for a threshold of zero), those that it has counted
-- already included.
pub run-closed_iff :
    (cb : CircuitBreaker) (cs : List (ℕ × Call))
    → Inv cb
    → cb.state ≡ closed
    → AreReports cs
    → ((run cb cs).state ≡ closed)
      ↔ (longest_streak cb.failure_count (map (λ c. c.1) cs) < max 1 cb.failure_threshold)
unfolding run step record_success record_failure
run-closed_iff cb [] v e h = ground arith
run-closed_iff cb ((now, try_half_opens) ∷ cs) v e h = absurd (h.0 refl)
run-closed_iff cb ((now, record_successes) ∷ cs) v e h =
    let (e', zeroed, same) = success_closed cb now e in
    let v' = step-Inv cb (now, record_successes) v in
    ground (arith, run-closed_iff (record_success cb now) cs v' e' h.1)
run-closed_iff cb ((now, record_failures) ∷ cs) v e h = elim (failure_closed cb now v e).1 [
  | inl (room, e', counted) ↦
      let same = (failure_closed cb now v e).0 in
      let v' = step-Inv cb (now, record_failures) v in
      ground (arith, run-closed_iff (record_failure cb now) cs v' e' h.1)
  | inr (full, e') ↦
      let stays = open_stays (record_failure cb now) cs h.1 e' in
      ground (arith, le-longest_streak (suc cb.failure_count) (map (λ c. c.1) cs))
]

step-not_closed :
    (cb : CircuitBreaker) (c : ℕ × Call)
    → cb.state ≢ closed
    → c.1 ≢ record_successes
    → (step cb c).state ≢ closed
unfolding step try_half_open record_failure
step-not_closed cb (now, try_half_opens) h n = ground arith
step-not_closed cb (now, record_successes) h n = absurd (n refl)
step-not_closed cb (now, record_failures) h n = ground arith

-- What holds of an open breaker during its cooldown.
abbrev WaitsFrom : ℕ → ℕ → CircuitBreaker → Type 0
WaitsFrom opened cooldown cb =
    (cb.state ≡ open_) × (opened ≤ cb.last_state_change) × (cb.cooldown ≡ cooldown)

step-WaitsFrom :
    (opened cooldown : ℕ) (cb : CircuitBreaker) (c : ℕ × Call)
    → WaitsFrom opened cooldown cb
    → (opened ≤ c.0) × (c.0 < opened + cooldown)
    → WaitsFrom opened cooldown (step cb c)
unfolding step try_half_open record_success record_failure
step-WaitsFrom opened cooldown cb (now, try_half_opens) w t = ground arith
step-WaitsFrom opened cooldown cb (now, record_successes) w t = ground arith
step-WaitsFrom opened cooldown cb (now, record_failures) w t = ground arith

run-WaitsFrom :
    (opened cooldown : ℕ) (cb : CircuitBreaker) (cs : List (ℕ × Call))
    → WaitsFrom opened cooldown cb
    → All (λ c. (opened ≤ c.0) × (c.0 < opened + cooldown)) cs
    → WaitsFrom opened cooldown (run cb cs)
unfolding run
run-WaitsFrom opened cooldown cb [] w t = w
run-WaitsFrom opened cooldown cb (c ∷ cs) w t =
    run-WaitsFrom opened cooldown (step cb c) cs (step-WaitsFrom opened cooldown cb c w t.0) t.1

-- An open breaker takes no traffic before its cooldown has passed since it opened, whatever is
-- called meanwhile: retries are refused, and reports do not close it.
pub open-until_cooldown :
    (cb : CircuitBreaker) (cs : List (ℕ × Call))
    → cb.state ≡ open_
    → All (λ c. (cb.last_state_change ≤ c.0) × (c.0 < cb.last_state_change + cb.cooldown)) cs
    → is_available (run cb cs) ≡ false
unfolding is_available
open-until_cooldown cb cs e t =
    ground (arith, run-WaitsFrom cb.last_state_change cb.cooldown cb cs (e, omega arith, refl) t)

-- After the cooldown one retry lets traffic through again; the report that follows decides: a
-- success closes the breaker with a fresh counter, a failure opens it for a new cooldown.
pub recovers_after_cooldown :
    (cb : CircuitBreaker) (now later : ℕ)
    → cb.state ≡ open_
    → cb.last_state_change + cb.cooldown ≤ now
    → let retried = try_half_open cb now in
      (is_available retried ≡ true)
      × ((record_success retried later).state ≡ closed)
      × ((record_success retried later).failure_count ≡ 0)
      × (is_available (record_failure retried later) ≡ false)
      × ((record_failure retried later).last_state_change ≡ later)
unfolding is_available try_half_open record_success record_failure
recovers_after_cooldown cb now later e h = ground arith

-- Without a report of success a breaker that is not closed never closes again, however often it
-- is retried.
pub run-not_closed :
    (cb : CircuitBreaker) (cs : List (ℕ × Call))
    → cb.state ≢ closed
    → All (λ c. c.1 ≢ record_successes) cs
    → (run cb cs).state ≢ closed
unfolding run
run-not_closed cb [] h n = h
run-not_closed cb (c ∷ cs) h n = run-not_closed (step cb c) cs (step-not_closed cb c h n.0) n.1
