-- ===== src/Server/App/Served.antt =====
-- src/server/mod.rs: whole requests that nothing holds up.
use soroban_gate.Common.{
  ℕ, ◌≡◌, refl, ◌∙◌, ap, sym, subst, true, false, List, some, String, In, str_eq, arith,
}
use soroban_gate.Common.Outcome.{ok}
use soroban_gate.Auth
use soroban_gate.Auth.Entry.{KeyEntry}
use soroban_gate.Auth.Extract.{extract_api_key}
use soroban_gate.External.Axum
use soroban_gate.External.Axum.{Axum, all_literal, exact, is_literal, not_found}
use soroban_gate.Pool.Upstream.{Arc, is_available}
use soroban_gate.Pool.Pools.{UpstreamPool}
use soroban_gate.RateLimit.{RateLimiterDispatch}
use soroban_gate.Routing.{route, extract_json_rpc_method}
use soroban_gate.Server.Http.{Request}
use soroban_gate.Server.State.{Libraries, AppState, Keys}
use soroban_gate.Server.Middleware.{run_next, auth_middleware, verdict_decision, layers}
use soroban_gate.Server.Middleware.Laws.{charged, layers-run_next, rate_limit_middleware-on}
use soroban_gate.Server.Proxy.{find_pool, begin}
use soroban_gate.Server.Proxy.Laws.{InRange, begin-through_cache}
use soroban_gate.Server.Proxy.Recovered.{Serves, through_cache-Serves}
use soroban_gate.Server.App.{gateway_routes, app, behind, dispatch}

gateway_routes-literal : all_literal gateway_routes ≡ true
unfolding gateway_routes is_literal
gateway_routes-literal = refl

not_health :
    (method path : String)
    → str_eq "/health" path ≡ false
    → exact gateway_routes method path ≡ not_found
unfolding exact gateway_routes
not_health method path e = ground (arith, e)

module _ (l : Libraries) where
  -- The request as the authentication marks it for the entry of its key.
  abbrev pub marked : Request → KeyEntry → Request
  marked request entry = record request {
    auth_tier = some (record { name = entry.tier });
    auth_key_id = some (record { id = entry.id });
  }

  auth_middleware-marked :
      (s : AppState l) (request : Request) (store : Keys l) (key : String) (entry : KeyEntry)
      → s.key_store ≡ some store
      → s.config.auth.enabled ≡ true
      → extract_api_key l.parse_query request.headers request.uri ≡ some key
      → Auth.lookup l.sqlite l.argon2 l.sha256_text store key ≡ ok (some entry)
      → entry.is_revoked ≡ false
      → auth_middleware l s request ≡ run_next (marked request entry)
  unfolding auth_middleware
  auth_middleware-marked s request store key entry m enabled given found live =
      ground (arith, m, enabled, given, found, live)

  layers-admitted :
      (s : AppState l) (now : ℕ) (request q : Request) (limiter : RateLimiterDispatch)
      → auth_middleware l s request ≡ run_next q
      → s.rate_limiter ≡ some limiter
      → s.config.rate_limit.enabled ≡ true
      → (charged l s now q limiter).1 ≡ ok tt
      → layers l s now request
        ≡ (record s { rate_limiter = some (charged l s now q limiter).0 }, run_next q)
  layers-admitted s now request q limiter known m on admitted =
      layers-run_next l s now request q known
      ∙ rate_limit_middleware-on l s now q limiter m on
      ∙ ap (verdict_decision l (record s { rate_limiter = some (charged l s now q limiter).0 }) q)
          admitted

  -- Where authentication and rate limiting are on, a request to any path but that of the health
  -- report, with a key that the store accepts and that is not revoked, and which the limiter lets
  -- through, is served when its body names a method and its pool has an upstream that is available:
  -- it comes to wait for an upstream of that pool, or is answered from the cache. Random draws are
  -- in range.
  pub app-served :
      (axum : Axum) (s : AppState l) (draw : ℕ → ℕ) (now : ℕ) (request : Request) (store : Keys l)
      (key : String) (entry : KeyEntry) (limiter : RateLimiterDispatch) (body : List ℕ)
      (method : String) (p : UpstreamPool) (a : Arc)
      → Axum.IsLawful axum
      → InRange draw
      → s.key_store ≡ some store
      → s.config.auth.enabled ≡ true
      → extract_api_key l.parse_query request.headers request.uri ≡ some key
      → Auth.lookup l.sqlite l.argon2 l.sha256_text store key ≡ ok (some entry)
      → entry.is_revoked ≡ false
      → s.rate_limiter ≡ some limiter
      → s.config.rate_limit.enabled ≡ true
      → (charged l s now (marked request entry) limiter).1 ≡ ok tt
      → str_eq "/health" request.uri.path ≡ false
      → request.body ≡ some body
      → extract_json_rpc_method l.serde_json body ≡ some method
      → find_pool (route s.router method) s.pools ≡ some p
      → In a p.upstreams
      → is_available (s.heap a) ≡ true
      → Serves l p (app l axum s draw now request)
  unfolding app
  app-served axum s draw now request store key entry limiter body method p a lawful range m enabled
        given looked live limited on admitted elsewhere read parsed found there up =
      let q = marked request entry in
      let t : AppState l = record s { rate_limiter = some (charged l s now q limiter).0 } in
      let known = auth_middleware-marked s request store key entry m enabled given looked live in
      let through = layers-admitted s now request q limiter known limited on admitted in
      let literal =
        lawful.find-literal gateway_routes request.method request.uri.path gateway_routes-literal in
      let reached : app l axum s draw now request ≡ begin l t draw now q =
        ap (behind l axum draw now) through
        ∙ ap (dispatch l axum t draw now q)
            (literal ∙ not_health request.method request.uri.path elsewhere) in
      subst (Serves l p)
        (sym (reached ∙ begin-through_cache l t draw now q body method read parsed))
        (through_cache-Serves l t draw now method (route s.router method) body p a range found there
          up)
