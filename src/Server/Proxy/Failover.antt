-- ===== src/Server/Proxy/Failover.antt =====
-- src/server/proxy.rs and src/pool/circuit_breaker.rs: requests that fail at one upstream, one after
-- another, and where later requests go.
use soroban_gate.Common.{
  ℕ, suc, ◌+◌, ◌≤◌, max, ◌≡◌, ◌≢◌, ◌⊎◌, ◌∙◌, ap, sym, refl, subst, Bool, true, false, List, [], ◌∷◌,
  String, length, map, All, inl, inr, Bool-cases, arith, leb,
}
use soroban_gate.Common.Words.{inc_u32}
use soroban_gate.Common.Outcome.{returned}
use soroban_gate.Pool.CircuitBreaker
use soroban_gate.Pool.CircuitBreaker.{CircuitBreaker, closed, open_, record_failure}
use soroban_gate.Pool.CircuitBreaker.Machine.{
  Call, record_failures, run, step, Inv, AreReports, longest_streak, run-closed_iff, open_stays,
}
use soroban_gate.Pool.Upstream.{
  Arc, is_available, is_healthy, UpstreamState, decrement_connection_count,
}
use soroban_gate.Server.Http.{Request}
use soroban_gate.Server.State.{Libraries, AppState}
use soroban_gate.Server.Proxy.{
  Pending, forwarding, begin, finish, forward_to_upstream, Exchange, bad_uri, bad_request,
  client_error, body_error, no_response_in_time, response,
}
use soroban_gate.Server.Proxy.Laws.{InRange, begin-Frame}

abbrev failures_at : List ℕ → List (ℕ × Call)
failures_at = map (λ now. (now, record_failures))

failures_at-AreReports : (ts : List ℕ) → AreReports (failures_at ts)
failures_at-AreReports [] = tt
failures_at-AreReports (t ∷ ts) = ((λ e. cc), failures_at-AreReports ts)

longest_streak-failures :
    (n : ℕ) (ts : List ℕ) → longest_streak n (map (λ c. c.1) (failures_at ts)) ≡ n + length ts
longest_streak-failures n [] = omega arith
longest_streak-failures n (t ∷ ts) = omega (arith, longest_streak-failures (suc n) ts)

failures_decide :
    (cb : CircuitBreaker) (ts : List ℕ)
    → cb.state ≡ closed
    → ((run cb (failures_at ts)).state ≡ closed) ⊎ ((run cb (failures_at ts)).state ≡ open_)
unfolding run step record_failure
failures_decide cb [] e = inl e
failures_decide cb (t ∷ ts) e =
    elim (Bool-cases (leb cb.failure_threshold (inc_u32 cb.failure_count))) [
      | inl full ↦ inr (
          open_stays (record_failure cb t) (failures_at ts) (failures_at-AreReports ts)
            (ground (arith, full, e)))
      | inr room ↦ failures_decide (record_failure cb t) ts (ground (arith, room, e))
    ]

failures_open :
    (cb : CircuitBreaker) (ts : List ℕ)
    → Inv cb
    → cb.state ≡ closed
    → max 1 cb.failure_threshold ≤ cb.failure_count + length ts
    → (run cb (failures_at ts)).state ≡ open_
failures_open cb ts v e enough = elim (failures_decide cb ts e) [
  | inr opened ↦ opened
  | inl still ↦
      let short = (run-closed_iff cb (failures_at ts) v e (failures_at-AreReports ts)).0 still in
      absurd (omega (arith, short, enough, longest_streak-failures cb.failure_count ts))
]

open-unavailable :
    (u : UpstreamState) → u.mutable_.circuit_breaker.state ≡ open_ → is_available u ≡ false
unfolding is_available CircuitBreaker.is_available CircuitBreaker.available_in
open-unavailable u e = elim (Bool-cases (is_healthy u.mutable_.health)) [
  | inl up ↦ ground (arith, up, e)
  | inr down ↦ ground (arith, down)
]

module _ (l : Libraries) where
  abbrev pub is_response : Exchange l → Bool
  is_response (response status headers body) = true
  is_response _ = false

  -- Forwarded requests that end one after another, each with its exchange and time.
  unfoldable pub finish_all :
      AppState l → (ℕ → String) → List (Pending × Exchange l × ℕ) → AppState l
  finish_all s decimal [] = s
  finish_all s decimal ((p, x, now) ∷ rest) = finish_all (finish l s decimal p x now).0 decimal rest

  abbrev pub AllFailAt : Arc → List (Pending × Exchange l × ℕ) → Type 0
  AllFailAt a = All (λ t. (t.0.upstream ≡ a) × (is_response t.1 ≡ false))

  abbrev times : List (Pending × Exchange l × ℕ) → List ℕ
  times = map (λ t. t.2)

  length-times : (xs : List (Pending × Exchange l × ℕ)) → length (times xs) ≡ length xs
  length-times [] = refl
  length-times (x ∷ xs) = ap suc (length-times xs)

  finish-failed :
      (s : AppState l) (decimal : ℕ → String) (p : Pending) (x : Exchange l) (now : ℕ) (a : Arc)
      → p.upstream ≡ a
      → is_response x ≡ false
      → ((finish l s decimal p x now).0.heap a).mutable_.circuit_breaker
        ≡ record_failure (s.heap a).mutable_.circuit_breaker now
  unfolding finish forward_to_upstream decrement_connection_count
  finish-failed s decimal p (bad_uri e) now a here failed = ground (arith, here)
  finish-failed s decimal p (bad_request e) now a here failed = ground (arith, here)
  finish-failed s decimal p (client_error e) now a here failed = ground (arith, here)
  finish-failed s decimal p (body_error e) now a here failed = ground (arith, here)
  finish-failed s decimal p no_response_in_time now a here failed = ground (arith, here)
  finish-failed s decimal p (response status headers body) now a here failed = cc

  finish_all-run :
      (s : AppState l) (decimal : ℕ → String) (xs : List (Pending × Exchange l × ℕ)) (a : Arc)
      → AllFailAt a xs
      → ((finish_all s decimal xs).heap a).mutable_.circuit_breaker
        ≡ run (s.heap a).mutable_.circuit_breaker (failures_at (times xs))
  unfolding finish_all run step
  finish_all-run s decimal [] a h = refl
  finish_all-run s decimal ((p, x, now) ∷ xs) a h =
      finish_all-run (finish l s decimal p x now).0 decimal xs a h.1
      ∙ ap (λ b. run b (failures_at (times xs))) (finish-failed s decimal p x now a h.0.0 h.0.1)

  -- When as many requests in a row have failed at an upstream, whose breaker was closed with its
  -- counter in bounds, as the threshold still allowed, the request that comes next is not forwarded
  -- to that upstream, given random draws in range.
  pub begin-failed_over :
      (s s' : AppState l) (decimal : ℕ → String) (xs : List (Pending × Exchange l × ℕ)) (a : Arc)
      (draw : ℕ → ℕ) (now : ℕ) (request : Request) (p : Pending)
      → Inv (s.heap a).mutable_.circuit_breaker
      → (s.heap a).mutable_.circuit_breaker.state ≡ closed
      → AllFailAt a xs
      → max 1 (s.heap a).mutable_.circuit_breaker.failure_threshold
        ≤ (s.heap a).mutable_.circuit_breaker.failure_count + length xs
      → InRange draw
      → begin l (finish_all s decimal xs) draw now request ≡ returned (s', forwarding p)
      → p.upstream ≢ a
  begin-failed_over s s' decimal xs a draw now request p v e h enough range b same =
      let t = finish_all s decimal xs in
      let opened = failures_open (s.heap a).mutable_.circuit_breaker (times xs) v e (
        subst
          (λ n.
            max 1 (s.heap a).mutable_.circuit_breaker.failure_threshold
            ≤ (s.heap a).mutable_.circuit_breaker.failure_count + n)
          (sym (length-times xs)) enough) in
      let down : is_available (t.heap a) ≡ false =
        open-unavailable (t.heap a)
          (ap (λ cb. cb.state) (finish_all-run s decimal xs a h) ∙ opened) in
      let (frame, (added, q, found, listed, up)) =
        begin-Frame l t s' draw now request (forwarding p) range b in
      let up_here : is_available (t.heap a) ≡ true =
        subst (λ x. is_available (t.heap x) ≡ true) same up in
      cc
