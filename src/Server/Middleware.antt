-- ===== src/Server/Middleware.antt =====
-- src/server/mod.rs: the middlewares and the order in which a request meets them. Each of them
-- either answers, or hands the request on as the last thing that it does: `run_next`.
pub mod Laws
pub mod Rates
use soroban_gate.Common.{
  ℕ, Bool, true, false, not, ◌&&◌, ◌||◌, List, [], ◌∷◌, Option, none, some, String, if◌then◌else◌,
}
use soroban_gate.Common.HashMap
use soroban_gate.Common.Text.{cat, is_empty_str, split_first, trim}
use soroban_gate.Common.Words.{ℤ, negsuc}
use soroban_gate.Common.Outcome.{Result, ok, err}
use soroban_gate.Config.{KeyTier}
use soroban_gate.Auth
use soroban_gate.Auth.{AuthTier}
use soroban_gate.Auth.Entry.{KeyEntry}
use soroban_gate.Auth.Store.{StoreError}
use soroban_gate.Auth.Extract.{extract_api_key}
use soroban_gate.RateLimit
use soroban_gate.RateLimit.{RateLimiterDispatch}
use soroban_gate.RateLimit.TokenBucket.{RateLimited}
use soroban_gate.External.Http.{HeaderMap, HeaderValue}
use soroban_gate.Server.Http.{Request, Response, auth_error_response, rate_limit_response}
use soroban_gate.Server.State.{
  Libraries, AppState, MetricEvent, rate_limit_rejections_total, note_metric,
}

pub data Decision : Type 0 where
  respond : Response → Decision
  run_next : Request → Decision

abbrev real_ip_or : Option HeaderValue → String
real_ip_or none = "unknown"
real_ip_or (some value) = elim value.to_str [
  | none ↦ "unknown"
  | some s ↦ if not (is_empty_str s) then s else "unknown"
]

-- A comma has the code 44.
unfoldable pub extract_client_ip : HeaderMap → String
unfolding split_first trim
extract_client_ip headers = elim (headers.get "X-Forwarded-For") [
  | none ↦ real_ip_or (headers.get "X-Real-IP")
  | some value ↦ elim value.to_str [
    | none ↦ real_ip_or (headers.get "X-Real-IP")
    | some s ↦
        let ip = trim (split_first 44 s) in
        if not (is_empty_str ip) then ip else real_ip_or (headers.get "X-Real-IP")
  ]
]

module _ (l : Libraries) where
  abbrev pub is_some {ℓ} : {A : Type ℓ} → Option A → Bool
  is_some none = false
  is_some (some a) = true

  abbrev pub unauthenticated : AppState l → Request → String → Decision
  unauthenticated state request message =
      if state.config.auth.allow_unauthenticated
      then run_next request
      else respond (auth_error_response 401 (negsuc 32_000) message)

  abbrev pub after_lookup : AppState l → Request → Result (Option KeyEntry) StoreError → Decision
  after_lookup state request (ok (some entry)) =
      if entry.is_revoked
      then respond (auth_error_response 403 (negsuc 32_002) "API key has been revoked")
      else run_next (record request {
        auth_tier = some (record { name = entry.tier });
        auth_key_id = some (record { id = entry.id });
      })
  after_lookup state request (ok none) = unauthenticated state request "Invalid API key"
  after_lookup state request (err e) =
      respond (auth_error_response 500 (negsuc 32_001) "Authentication service unavailable")

  unfoldable pub auth_middleware : AppState l → Request → Decision
  unfolding Auth.lookup
  auth_middleware state request = elim state.key_store [
    | none ↦ run_next request
    | some store ↦
        if not state.config.auth.enabled
        then run_next request
        else elim (extract_api_key l.parse_query request.headers request.uri) [
          | none ↦ unauthenticated state request "Authentication required"
          | some key ↦
              after_lookup state request (Auth.lookup l.sqlite l.argon2 l.sha256_text store key)
        ]
  ]

  -- The bucket of a request, and its rate and burst.
  abbrev by_address : AppState l → Request → String × ℕ × ℕ
  by_address state request = (
    cat "ip:" (extract_client_ip request.headers),
    state.config.rate_limit.ip_fallback_rps,
    state.config.rate_limit.ip_fallback_burst,
  )

  unfoldable pub rate_key : AppState l → Request → String × ℕ × ℕ
  rate_key state request = elim request.auth_tier [
    | none ↦ by_address state request
    | some tier ↦ elim (HashMap.get tier.name state.auth_tiers) [
      | none ↦ by_address state request
      | some t ↦ (cat "tier:" t.name, t.requests_per_second, t.burst)
    ]
  ]

  abbrev pub tier_label : Option AuthTier → String
  tier_label none = "unauthenticated"
  tier_label (some tier) = tier.name

  abbrev pub verdict_decision :
      AppState l → Request → Result (Unit {0}) RateLimited → AppState l × Decision
  verdict_decision state request (ok _) = (state, run_next request)
  verdict_decision state request (err e) = (
    note_metric l (rate_limit_rejections_total (tier_label request.auth_tier) "rate_exceeded")
        state,
    respond rate_limit_response,
  )

  unfoldable pub rate_limit_middleware : AppState l → ℕ → Request → AppState l × Decision
  unfolding RateLimit.check_rate
  rate_limit_middleware state now request = elim state.rate_limiter [
    | none ↦ (state, run_next request)
    | some limiter ↦
        if not state.config.rate_limit.enabled
        then (state, run_next request)
        else (let (key, rps, burst) = rate_key state request in
            let (limiter', verdict) = RateLimit.check_rate limiter key rps burst now in
            verdict_decision (record state { rate_limiter = some limiter' }) request verdict)
  ]

  -- It only writes to the log, as `gateway_middleware` does around the handlers.
  unfoldable pub gateway_middleware : Request → Decision
  gateway_middleware request = run_next request

  unfoldable pub cache_middleware : Request → Decision
  cache_middleware request = run_next request

  abbrev next :
      AppState l × Decision → (AppState l → Request → AppState l × Decision) → AppState l × Decision
  next (state, respond r) layer = (state, respond r)
  next (state, run_next request) layer = layer state request

  -- The layers of `build_router` from the outermost in, below the one that traces.
  unfoldable pub layers : AppState l → ℕ → Request → AppState l × Decision
  unfolding gateway_middleware auth_middleware rate_limit_middleware cache_middleware
  layers state now request =
      let outer = next (state, gateway_middleware request) (λ s r. (s, auth_middleware s r)) in
      next (next outer (λ s r. rate_limit_middleware s now r)) (λ s r. (s, cache_middleware r))
