-- ===== src/Server/Admin/Dispatch.antt =====
-- src/server/admin.rs, `router`: the admin API's routes, and a request that is dispatched by them.
use soroban_gate.Common.{ℕ, List, [], ◌∷◌, Option, none, some, String}
use soroban_gate.Common.Outcome.{Result, ok, err}
use soroban_gate.External.Axum.{Axum, Route, Found, matched, method_not_allowed, not_found}
use soroban_gate.Server.Http.{Response, json_response}
use soroban_gate.Server.State.{Libraries, AppState}
use soroban_gate.Server.Admin.{
  Answer, reload_handler, cache_flush_handler, keys_list_handler, keys_create_handler,
  keys_delete_handler, upstream_enable_handler, upstream_disable_handler,
}
use soroban_gate.Server.Admin.Status.{status_handler, cache_stats_handler}

pub data Endpoint : Type 0 where
  status reload cache_flush cache_stats upstream_enable upstream_disable : Endpoint
  keys_list keys_create keys_delete : Endpoint

abbrev route : String → String → Endpoint → Route Endpoint
route path method target = record { path = path; method = method; target = target }

unfoldable pub router : List (Route Endpoint)
router =
    route "/admin/status" "GET" status
    ∷ route "/admin/reload" "POST" reload
    ∷ route "/admin/cache" "DELETE" cache_flush
    ∷ route "/admin/cache/stats" "GET" cache_stats
    ∷ route "/admin/upstreams/{url}/enable" "POST" upstream_enable
    ∷ route "/admin/upstreams/{url}/disable" "POST" upstream_disable
    ∷ route "/admin/keys" "GET" keys_list
    ∷ route "/admin/keys" "POST" keys_create
    ∷ route "/admin/keys/{id}" "DELETE" keys_delete
    ∷ []

module _ (l : Libraries) where
  -- The extractor `Json<Value>` gives the payload or its rejection.
  pub record AdminRequest : Type 0 where
    pub method : String
    pub path : String
    pub payload : Result l.serde_json.Value Response

  abbrev sent : AppState l × Answer → AppState l × Response
  sent (state, (code, value)) = (state, json_response code value)

  abbrev with_path :
      Axum → AppState l → Option String → (String → AppState l × Answer) → AppState l × Response
  with_path axum state none handle = (state, axum.path_rejection)
  with_path axum state (some argument) handle = sent (handle argument)

  abbrev pub with_payload :
      AppState l
      → Result l.serde_json.Value Response
      → (l.serde_json.Value → AppState l × Answer)
      → AppState l × Response
  with_payload state (err rejection) handle = (state, rejection)
  with_payload state (ok payload) handle = sent (handle payload)

  -- The handler of an endpoint, with the arguments that its extractors give.
  unfoldable pub endpoint :
      Axum
      → (String → String)
      → AppState l
      → AdminRequest
      → ℕ
      → ℕ
      → Endpoint
      → List (String × String)
      → AppState l × Response
  unfolding reload_handler cache_flush_handler keys_list_handler keys_create_handler
      keys_delete_handler upstream_enable_handler upstream_disable_handler status_handler
      cache_stats_handler
  endpoint axum decode state request salt now status captures =
      sent (state, status_handler l state now)
  endpoint axum decode state request salt now reload captures = sent (state, reload_handler)
  endpoint axum decode state request salt now cache_flush captures =
      sent (cache_flush_handler l state)
  endpoint axum decode state request salt now cache_stats captures =
      sent (state, cache_stats_handler l state)
  endpoint axum decode state request salt now upstream_enable captures =
      with_path axum state (axum.path_argument captures)
        (λ url. upstream_enable_handler l decode state url now)
  endpoint axum decode state request salt now upstream_disable captures =
      with_path axum state (axum.path_argument captures)
        (λ url. upstream_disable_handler l decode state url now)
  endpoint axum decode state request salt now keys_list captures =
      sent (state, keys_list_handler l state)
  endpoint axum decode state request salt now keys_create captures =
      with_payload state request.payload (λ payload. keys_create_handler l state payload salt now)
  endpoint axum decode state request salt now keys_delete captures =
      with_path axum state (axum.path_argument captures) (λ id. keys_delete_handler l state id)

  abbrev pub dispatched :
      Axum
      → AppState l
      → (Endpoint → List (String × String) → AppState l × Response)
      → Found Endpoint
      → AppState l × Response
  dispatched axum state handle (matched target captures) = handle target captures
  dispatched axum state handle method_not_allowed = (state, axum.method_not_allowed_response)
  dispatched axum state handle not_found = (state, axum.not_found_response)

  -- A request to the admin API.
  unfoldable pub admin_app :
      Axum → (String → String) → AppState l → AdminRequest → ℕ → ℕ → AppState l × Response
  unfolding endpoint router
  admin_app axum decode state request salt now =
      dispatched axum state (λ e captures. endpoint axum decode state request salt now e captures)
        (axum.find router request.method request.path)
