-- ===== src/Server/Middleware/Rates.antt =====
-- The limit of src/rate_limit/token_bucket.rs for whole requests, as they pass the layers.
use soroban_gate.Common.{
  ℕ, ◌+◌, ◌-◌, ◌*◌, ◌≤◌, ◌<◌, ◌≡◌, ◌∙◌, ap, sym, refl, subst, Bool, true, false, ◌&&◌, List, [],
  ◌∷◌, Option, some, String, if◌then◌else◌, str_eq, Bool-cases, inl, inr, arith,
}
use soroban_gate.Common.Outcome.{Result, ok, err}
use soroban_gate.RateLimit
use soroban_gate.RateLimit.{RateLimiterDispatch}
use soroban_gate.RateLimit.TokenBucket
use soroban_gate.RateLimit.TokenBucket.{TokenBucketRateLimiter, RateLimited, token}
use soroban_gate.Common.Words.{u32_mod}
use soroban_gate.RateLimit.TokenBucket.Refill.{billion, slack}
use soroban_gate.RateLimit.TokenBucket.Bounds.{
  called, Call, admitted, InOrder, Uniform, admitted-le, is_ok,
}
use soroban_gate.Server.Http.{Request, Response}
use soroban_gate.Server.State.{
  Libraries, AppState, MetricEvent, note_metric, rate_limit_rejections_total,
}
use soroban_gate.Server.Middleware.{
  Decision, respond, run_next, auth_middleware, verdict_decision, rate_key, layers, tier_label,
}
use soroban_gate.Server.Middleware.Laws.{
  recharged, Decision-cases, layers-respond, layers-run_next, rate_limit_middleware-on,
}

module _ (l : Libraries) where
  -- The call of the limiter that a request comes to.
  abbrev pub call_of : AppState l → ℕ → Request → Call
  call_of s now q =
      let (key, rps, burst) = rate_key l s q in
      record { key = key; requests_per_second = rps; burst = burst; now = now }

  abbrev pub calls_after : AppState l → ℕ → Decision → List Call → List Call
  calls_after s now (respond r) cs = cs
  calls_after s now (run_next q) cs = call_of s now q ∷ cs

  -- The calls that a sequence of requests, each with its time, comes to: those that the
  -- authentication answers make none.
  unfoldable pub calls : AppState l → List (ℕ × Request) → List Call
  calls s [] = []
  calls s ((now, r) ∷ rs) = calls_after s now (auth_middleware l s r) (calls s rs)

  abbrev pub is_through : String → AppState l → Decision → Bool
  is_through key s (respond r) = false
  is_through key s (run_next q) = str_eq (rate_key l s q).0 key

  -- How many requests of a bucket come through the layers.
  unfoldable pub through : String → AppState l → List (ℕ × Request) → ℕ
  through key s [] = 0
  through key s ((now, r) ∷ rs) =
      let (s', d) = layers l s now r in (if is_through key s d then 1 else 0) + through key s' rs

  same_calls :
      (s : AppState l) (limiter : Option RateLimiterDispatch) (metrics : Option (List MetricEvent))
      (rs : List (ℕ × Request))
      → calls (recharged l s limiter metrics) rs ≡ calls s rs
  unfolding calls auth_middleware rate_key
  same_calls s limiter metrics [] = refl
  same_calls s limiter metrics ((now, r) ∷ rs) =
      ap (calls_after s now (auth_middleware l s r)) (same_calls s limiter metrics rs)

  abbrev through_pair : String → AppState l → List (ℕ × Request) → AppState l × Decision → ℕ
  through_pair key s rs p = (if is_through key s p.1 then 1 else 0) + through key p.0 rs

  verdict_decision-through :
      (key : String) (s : AppState l) (limiter : TokenBucketRateLimiter) (q : Request)
      (v : Result (Unit {0}) RateLimited) (rs : List (ℕ × Request)) (n : ℕ)
      → ((metrics : Option (List MetricEvent))
          → through key (recharged l s (some (RateLimiterDispatch.memory limiter)) metrics) rs ≡ n)
      → through_pair key s rs (
          verdict_decision l
            (record s { rate_limiter = some (RateLimiterDispatch.memory limiter) })
            q
            v)
        ≡ (if str_eq (rate_key l s q).0 key && is_ok v then 1 else 0) + n
  verdict_decision-through key s limiter q (ok _) rs n rest = ground (arith, rest s.metrics)
  verdict_decision-through key s limiter q (err e) rs n rest =
      let kept =
        rest
          (note_metric l (rate_limit_rejections_total (tier_label l q.auth_tier) "rate_exceeded")
            s).metrics in
      elim (Bool-cases (str_eq (rate_key l s q).0 key)) [
        | inl same ↦ ground (arith, kept, same)
        | inr other ↦ ground (arith, kept, other)
      ]

  through-nil : (key : String) (s : AppState l) → through key s [] ≡ 0
  unfolding through
  through-nil key s = refl

  through_pair-respond :
      (key : String) (s : AppState l) (rs : List (ℕ × Request)) (x : Response)
      → through_pair key s rs (s, respond x) ≡ through key s rs
  through_pair-respond key s rs x = omega arith

  through-cons :
      (key : String) (s : AppState l) (now : ℕ) (r : Request) (rs : List (ℕ × Request))
      → through key s ((now, r) ∷ rs) ≡ through_pair key s rs (layers l s now r)
  unfolding through
  through-cons key s now r rs = refl

  through-admitted :
      (key : String) (s : AppState l) (limiter : TokenBucketRateLimiter) (rs : List (ℕ × Request))
      → s.config.rate_limit.enabled ≡ true
      → s.rate_limiter ≡ some (RateLimiterDispatch.memory limiter)
      → through key s rs ≡ admitted key limiter (calls s rs)
  unfolding calls admitted RateLimit.check_rate
  through-admitted key s limiter [] on m = through-nil key s
  through-admitted key s limiter ((now, r) ∷ rs) on m =
      elim (Decision-cases l (auth_middleware l s r)) [
        | inl (x, e) ↦
            through-cons key s now r rs
            ∙ ap (through_pair key s rs) (layers-respond l s now r x e)
            ∙ through_pair-respond key s rs x
            ∙ through-admitted key s limiter rs on m
            ∙ sym (ap (λ d. admitted key limiter (calls_after s now d (calls s rs))) e)
        | inr (q, e) ↦
            let c = call_of s now q in
            let (limiter', v) =
              TokenBucket.check_rate limiter c.key c.requests_per_second c.burst now in
            let rest : (metrics : Option (List MetricEvent))
                → through key (recharged l s (some (RateLimiterDispatch.memory limiter')) metrics)
                    rs
                  ≡ admitted key limiter' (calls s rs) =
              λ metrics.
                through-admitted key
                  (recharged l s (some (RateLimiterDispatch.memory limiter')) metrics) limiter' rs
                  on refl
                ∙ ap (admitted key limiter')
                    (same_calls s (some (RateLimiterDispatch.memory limiter')) metrics rs) in
            through-cons key s now r rs
            ∙ ap (through_pair key s rs) (
                layers-run_next l s now r q e
                ∙ rate_limit_middleware-on l s now q (RateLimiterDispatch.memory limiter) m on)
            ∙ verdict_decision-through key s limiter' q v rs (admitted key limiter' (calls s rs))
                rest
            ∙ sym (ap (λ d. admitted key limiter (calls_after s now d (calls s rs))) e)
      ]

  -- From start-up with the rate limiter on, and over any sequence of requests whose times do not
  -- fall and lie between `start` and `end`, no more requests of one bucket come through the layers
  -- than its burst and what its rate allows over that time, and at most 1/131072 more for each
  -- request that is charged to the bucket, by the roundings to `f64`; and no more than the burst
  -- times the charged ones, so none at all where the burst is zero, as in a tier that the README
  -- calls unlimited. All that are charged to the bucket must carry its rate and burst, both 32-bit
  -- words.
  pub through-le :
      (key : String) (rps burst start end : ℕ) (s : AppState l) (rs : List (ℕ × Request))
      → rps < u32_mod
      → burst < u32_mod
      → s.config.rate_limit.enabled ≡ true
      → s.rate_limiter ≡ some (RateLimiterDispatch.memory TokenBucket.new)
      → InOrder start end (calls s rs)
      → Uniform key rps burst (calls s rs)
      → (billion * (through key s rs * token)
          ≤ billion * (burst * token)
            + (end - start) * rps * token
            + called key (calls s rs) * (billion * slack))
        × (through key s rs ≤ called key (calls s rs) * burst)
  through-le key rps burst start end s rs small_rate small_burst on m in_order uniform =
      subst
        (λ n.
          (billion * (n * token)
            ≤ billion * (burst * token)
              + (end - start) * rps * token
              + called key (calls s rs) * (billion * slack))
          × (n ≤ called key (calls s rs) * burst))
        (sym (through-admitted key s TokenBucket.new rs on m))
        (admitted-le key rps burst start end (calls s rs) small_rate small_burst in_order uniform)
