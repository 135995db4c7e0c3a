-- ===== src/Server/Middleware/Laws.antt =====
-- src/server/mod.rs: which requests the layers let through to the handlers.
use soroban_gate.Common.{
  ℕ, ◌≡◌, ◌∙◌, ap, sym, refl, true, false, Option, none, some, String, Bool-cases, Option-cases,
  inl, inr, ◌⊎◌, List, arith,
}
use soroban_gate.Common.Outcome.{Result, ok, err}
use soroban_gate.Auth
use soroban_gate.Auth.{AuthTier}
use soroban_gate.Auth.Entry.{KeyEntry}
use soroban_gate.Auth.Extract.{extract_api_key}
use soroban_gate.Auth.Store.{StoreError}
use soroban_gate.RateLimit
use soroban_gate.RateLimit.{RateLimiterDispatch}
use soroban_gate.RateLimit.TokenBucket.{RateLimited}
use soroban_gate.Server.Http.{Request, Response}
use soroban_gate.Server.State.{Libraries, AppState, MetricEvent, Keys}
use soroban_gate.Server.Middleware.{
  Decision, respond, run_next, after_lookup, auth_middleware, rate_limit_middleware,
  verdict_decision, rate_key, layers, next, gateway_middleware, cache_middleware,
}

module _ (l : Libraries) where
  -- The state with another limiter and other metrics.
  abbrev pub recharged :
      AppState l → Option RateLimiterDispatch → Option (List MetricEvent) → AppState l
  recharged s limiter metrics = record s { rate_limiter = limiter; metrics = metrics }

  verdict_decision-kept :
      (s : AppState l) (limiter : Option RateLimiterDispatch) (request : Request)
      (v : Result (Unit {0}) RateLimited)
      → (metrics : Option (List MetricEvent)) × ((verdict_decision l
            (record s { rate_limiter = limiter })
            request
            v).0
          ≡ recharged s limiter metrics)
  verdict_decision-kept s limiter request (ok _) = (s.metrics, refl)
  verdict_decision-kept s limiter request (err e) = (_, refl)

  -- The call of the limiter for a request.
  abbrev pub charged :
      AppState l
      → ℕ
      → Request
      → RateLimiterDispatch
      → RateLimiterDispatch × Result (Unit {0}) RateLimited
  charged s now request limiter =
      let (key, rps, burst) = rate_key l s request in RateLimit.check_rate limiter key rps burst now

  pub rate_limit_middleware-on :
      (s : AppState l) (now : ℕ) (request : Request) (limiter : RateLimiterDispatch)
      → s.rate_limiter ≡ some limiter
      → s.config.rate_limit.enabled ≡ true
      → rate_limit_middleware l s now request
        ≡ verdict_decision l
            (record s { rate_limiter = some (charged s now request limiter).0 })
            request
            (charged s now request limiter).1
  unfolding rate_limit_middleware
  rate_limit_middleware-on s now request limiter m on = ground (arith, m, on)

  rate_limit_middleware-kept :
      (s : AppState l) (now : ℕ) (request : Request)
      → (limiter : Option RateLimiterDispatch) × (metrics : Option (List MetricEvent))
        × ((rate_limit_middleware l s now request).0 ≡ recharged s limiter metrics)
  unfolding rate_limit_middleware
  rate_limit_middleware-kept s now request = elim (Option-cases s.rate_limiter) [
    | inl m ↦ (s.rate_limiter, s.metrics, ground (arith, m))
    | inr (limiter, m) ↦ elim (Bool-cases s.config.rate_limit.enabled) [
      | inr off ↦ (s.rate_limiter, s.metrics, ground (arith, m, off))
      | inl on ↦
          let (limiter', verdict) = charged s now request limiter in
          let (metrics, kept) = verdict_decision-kept s (some limiter') request verdict in
          (
            some limiter',
            metrics,
            ap (λ x. x.0) (rate_limit_middleware-on s now request limiter m on) ∙ kept,
          )
    ]
  ]

  pub Decision-cases :
      (d : Decision) → ((r : Response) × (d ≡ respond r)) ⊎ ((q : Request) × (d ≡ run_next q))
  Decision-cases (respond r) = inl (r, refl)
  Decision-cases (run_next q) = inr (q, refl)

  cache_layer : (p : AppState l × Decision) → next l p (λ s r. (s, run_next r)) ≡ p
  cache_layer (s, respond r) = refl
  cache_layer (s, run_next q) = refl

  -- An answer of the authentication is the answer, and the limiter is not charged.
  pub layers-respond :
      (s : AppState l) (now : ℕ) (request : Request) (r : Response)
      → auth_middleware l s request ≡ respond r
      → layers l s now request ≡ (s, respond r)
  unfolding layers gateway_middleware cache_middleware
  layers-respond s now request r e = ground (arith, e)

  pub layers-run_next :
      (s : AppState l) (now : ℕ) (request q : Request)
      → auth_middleware l s request ≡ run_next q
      → layers l s now request ≡ rate_limit_middleware l s now q
  unfolding layers gateway_middleware cache_middleware
  layers-run_next s now request q e =
      ap
        (λ d.
          next l (next l (s, d) (λ s r. rate_limit_middleware l s now r)) (λ s r. (s, run_next r)))
        e
      ∙ cache_layer (rate_limit_middleware l s now q)

  pub layers-kept :
      (s : AppState l) (now : ℕ) (request : Request)
      → (limiter : Option RateLimiterDispatch) × (metrics : Option (List MetricEvent)) × ((layers l
            s now request).0
          ≡ recharged s limiter metrics)
  unfolding layers
  layers-kept s now request = elim (Decision-cases (auth_middleware l s request)) [
    | inl (r, e) ↦ (s.rate_limiter, s.metrics, ap (λ x. x.0) (layers-respond s now request r e))
    | inr (q, e) ↦
        let (limiter, metrics, kept) = rate_limit_middleware-kept s now q in
        (limiter, metrics, ap (λ x. x.0) (layers-run_next s now request q e) ∙ kept)
  ]

  verdict_decision-run_next :
      (s s' : AppState l) (q through : Request) (v : Result (Unit {0}) RateLimited)
      → verdict_decision l s q v ≡ (s', run_next through)
      → through ≡ q
  verdict_decision-run_next s s' q through (ok _) h = ground (arith, h)
  verdict_decision-run_next s s' q through (err e) h = ground (arith, h)

  passed-same :
      (s s' : AppState l) (now : ℕ) (q through : Request)
      → rate_limit_middleware l s now q ≡ (s', run_next through)
      → through ≡ q
  unfolding rate_limit_middleware
  passed-same s s' now q through h = elim (Option-cases s.rate_limiter) [
    | inl m ↦ ground (arith, m, h)
    | inr (limiter, m) ↦ elim (Bool-cases s.config.rate_limit.enabled) [
      | inr off ↦ ground (arith, m, off, h)
      | inl on ↦
          verdict_decision-run_next (record s { rate_limiter = some (charged s now q limiter).0 })
            s' q through (charged s now q limiter).1
            (sym (rate_limit_middleware-on s now q limiter m on) ∙ h)
    ]
  ]

  after_lookup-run_next :
      (s : AppState l) (request q : Request) (r : Result (Option KeyEntry) StoreError)
      → s.config.auth.allow_unauthenticated ≡ false
      → after_lookup l s request r ≡ run_next q
      → (entry : KeyEntry) × (r ≡ ok (some entry))
        × (entry.is_revoked ≡ false)
        × (q ≡ record request {
          auth_tier = some (record { name = entry.tier });
          auth_key_id = some (record { id = entry.id });
        })
  after_lookup-run_next s request q (ok none) strict h = ground (arith, strict, h)
  after_lookup-run_next s request q (err x) strict h = ground (arith, h)
  after_lookup-run_next s request q (ok (some entry)) strict h =
      elim (Bool-cases entry.is_revoked) [
        | inl gone ↦ ground (arith, gone, h)
        | inr live ↦ (entry, refl, live, ground (arith, live, h))
      ]

  -- Behind the layers, where authentication is on and not optional, every request has come with a
  -- key that the store accepts and that is not revoked, and it carries that key's tier and id.
  pub layers-authenticated :
      (s s' : AppState l) (now : ℕ) (request through : Request) (store : Keys l)
      → s.key_store ≡ some store
      → s.config.auth.enabled ≡ true
      → s.config.auth.allow_unauthenticated ≡ false
      → layers l s now request ≡ (s', run_next through)
      → (key : String) × (entry : KeyEntry) × (extract_api_key l.parse_query request.headers
            request.uri
          ≡ some key)
        × (Auth.lookup l.sqlite l.argon2 l.sha256_text store key ≡ ok (some entry))
        × (entry.is_revoked ≡ false)
        × (through ≡ record request {
          auth_tier = some (record { name = entry.tier });
          auth_key_id = some (record { id = entry.id });
        })
  unfolding layers auth_middleware
  layers-authenticated s s' now request through store e enabled strict h =
      elim (Decision-cases (auth_middleware l s request)) [
        | inl (r, d) ↦ ground (arith, h, layers-respond s now request r d)
        | inr (q, d) ↦
            let same : through ≡ q =
              passed-same s s' now q through (sym (layers-run_next s now request q d) ∙ h) in
            elim (Option-cases (extract_api_key l.parse_query request.headers request.uri)) [
              | inl m ↦ ground (arith, d, e, enabled, strict, m)
              | inr (key, m) ↦
                  let r = Auth.lookup l.sqlite l.argon2 l.sha256_text store key in
                  let looked : after_lookup l s request r ≡ run_next q =
                    ground (arith, d, e, enabled, strict, m) in
                  let (entry, found, live, carries) =
                    after_lookup-run_next s request q r strict looked in
                  (key, entry, m, found, live, same ∙ carries)
            ]
      ]
