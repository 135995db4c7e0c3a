-- ===== src/Server/App.antt =====
-- src/server/mod.rs, `build_router`: a request to the gateway, from the layers through the dispatch
-- to the handlers.
pub mod Laws
pub mod Served
use soroban_gate.Common.{ℕ, List, [], ◌∷◌, String}
use soroban_gate.Common.Outcome.{Outcome, returned}
use soroban_gate.External.Axum.{Axum, Route, Found, matched, method_not_allowed, not_found}
use soroban_gate.Server.Http.{Request, Response, json_response}
use soroban_gate.Server.State.{Libraries, AppState}
use soroban_gate.Server.Middleware.{Decision, respond, run_next, layers}
use soroban_gate.Server.Proxy.{Begun, answered, begin}
use soroban_gate.Server.Reports.{health_handler, metrics_handler}

pub data Endpoint : Type 0 where
  health : Endpoint

unfoldable pub gateway_routes : List (Route Endpoint)
gateway_routes = record { path = "/health"; method = "GET"; target = health } ∷ []

pub data MetricsEndpoint : Type 0 where
  metrics : MetricsEndpoint

unfoldable pub metrics_routes : List (Route MetricsEndpoint)
metrics_routes = record { path = "/metrics"; method = "GET"; target = metrics } ∷ []

module _ (l : Libraries) where
  -- The route of `/health`, and the proxy as the fallback for all other paths.
  abbrev pub dispatch :
      Axum → AppState l → (ℕ → ℕ) → ℕ → Request → Found Endpoint → Outcome (AppState l × Begun)
  dispatch axum state draw now request (matched health captures) =
      returned (state, answered (json_response 200 (health_handler l state now)))
  dispatch axum state draw now request method_not_allowed =
      returned (state, answered axum.method_not_allowed_response)
  dispatch axum state draw now request not_found = begin l state draw now request

  abbrev pub behind : Axum → (ℕ → ℕ) → ℕ → AppState l × Decision → Outcome (AppState l × Begun)
  behind axum draw now (state, respond r) = returned (state, answered r)
  behind axum draw now (state, run_next request) =
      dispatch axum state draw now request
        (axum.find gateway_routes request.method request.uri.path)

  -- A request to the gateway, up to the await of the proxy.
  unfoldable pub app : Axum → AppState l → (ℕ → ℕ) → ℕ → Request → Outcome (AppState l × Begun)
  unfolding layers begin gateway_routes health_handler
  app axum state draw now request = behind axum draw now (layers l state now request)

  abbrev metrics_found : Axum → AppState l → String → Found MetricsEndpoint → Response
  metrics_found axum state rendered (matched metrics captures) = metrics_handler l state rendered
  metrics_found axum state rendered method_not_allowed = axum.method_not_allowed_response
  metrics_found axum state rendered not_found = axum.not_found_response

  -- A request to the listener of the metrics.
  unfoldable pub metrics_app : Axum → AppState l → String → String → String → Response
  unfolding metrics_routes metrics_handler
  metrics_app axum state rendered method path =
      metrics_found axum state rendered (axum.find metrics_routes method path)
