-- ===== src/Server/Tests/Whole.antt =====
-- The theorems on whole requests, on the reports and on the counting of requests, at a concrete
-- gateway.
use soroban_gate.Common.{ℕ, arith, inr, ◌≡◌, ◌⊎◌, ◌↔◌, List, [], ◌∷◌, none, some, String, refl}
use soroban_gate.Common.Words.{pos}
use soroban_gate.Common.Outcome.{returned, err}
use soroban_gate.Auth
use soroban_gate.Config.{LoadBalancingAlgorithm}
use soroban_gate.External.Http.{HeaderMap}
use soroban_gate.External.Instances.Web.{
  literal_axum, literal_axum-IsLawful, list_prometheus, list_prometheus-IsLawful,
}
use soroban_gate.Auth.Extract.{
  extract_api_key, from_authorization, from_x_api_key, from_query, from_pairs,
}
use soroban_gate.Metrics.Requests.{CountsOnce, IsSeen, status_sent, labels_of, finish-CountsOnce}
use soroban_gate.Pool.Pools.{
  UpstreamPool, create_pools, create_pools_from, create_pool, create_upstreams,
}
use soroban_gate.Pool.Upstream
use soroban_gate.Server.Http.{Request, Response, Body, integer}
use soroban_gate.Server.State.{AppState, MetricEvent}
use soroban_gate.Common.HashMap
use soroban_gate.Routing
use soroban_gate.Routing.{route, insert_rules, extract_json_rpc_method}
use soroban_gate.Cache.{ttl_for}
use soroban_gate.Server.Proxy.{
  answered, begin, forward_to_upstream, finish, find_pool, no_response_in_time,
}
use soroban_gate.Server.Reports.{health_handler}
use soroban_gate.Server.Reports.Reading.{reported}
use soroban_gate.Server.Reports.Laws.{IsUncached, health_handler-predicts, unavailable}
use soroban_gate.Server.App.{app}
use soroban_gate.Server.App.Laws.{app-refused, IsAccepted}
use soroban_gate.Server.Admin.Dispatch.{AdminRequest, admin_app}
use soroban_gate.Server.Admin.Effects.{Effects, admin_app-Effects}
use soroban_gate.Server.Tests.{
  small, ready, one_key, request, first_draw, first_draw-InRange, waiting_request, no_text,
}

abbrev main_of_ready : UpstreamPool
main_of_ready = record {
  name = "main";
  upstreams = 0 ∷ 1 ∷ [];
  algorithm = LoadBalancingAlgorithm.wrr;
  wrr_counter = 0;
}

-- The method of the request, which has no lifetime in this gateway.
abbrev uncached : AppState small
uncached = record ready { cache_ttl_table = record { rules = [] } }

named : extract_json_rpc_method small.serde_json (1 ∷ []) ≡ some "getHealth"
unfolding extract_json_rpc_method
named = refl

no_lifetime : IsUncached small uncached "getHealth"
unfolding ttl_for HashMap.get
no_lifetime = inr refl

routed_main : find_pool (route uncached.router "getHealth") uncached.pools ≡ some main_of_ready
unfolding find_pool route Routing.new insert_rules HashMap.get HashMap.insert HashMap.insert_each
    create_pools create_pools_from create_pool create_upstreams Upstream.new
routed_main = refl

health_handler-predicts_example :
    (reported "healthy_upstreams"
        (route uncached.router "getHealth")
        (health_handler small uncached 7)
      ≡ some (integer (pos 0)))
    ↔ (begin small uncached first_draw 7 request
        ≡ returned (uncached, answered (unavailable small)))
health_handler-predicts_example =
    health_handler-predicts small uncached 7 first_draw request (1 ∷ []) "getHealth" main_of_ready
      first_draw-InRange refl named no_lifetime routed_main

abbrev same_text : String → String
same_text s = s

abbrev disable_request : AdminRequest small
disable_request = record {
  method = "POST";
  path = "/admin/upstreams/http%3A%2F%2Fa/disable";
  payload = err (record { status = 415; headers = []; body = Body.bytes [] });
}

admin_app-Effects_example :
    Effects small ready disable_request 1 5
      (admin_app small literal_axum same_text ready disable_request 1 5).0
    × ((admin_app small literal_axum same_text ready disable_request 1 5).0.heap ≡ ready.heap)
admin_app-Effects_example =
    admin_app-Effects small literal_axum same_text ready disable_request 1 5 literal_axum-IsLawful

abbrev no_headers : HeaderMap
no_headers = record { get = λ name. none }

abbrev probe : Request
probe = record request {
  method = "GET";
  headers = no_headers;
  uri = record { path = "/health"; query = none };
}

probe_without_key : extract_api_key small.parse_query no_headers probe.uri ≡ none
unfolding extract_api_key from_authorization from_x_api_key from_query from_pairs
probe_without_key = refl

probe_not-IsAccepted : ¬ IsAccepted small (Auth.KeyStoreDispatch.sqlite one_key) probe
probe_not-IsAccepted (key, entry, given, found, live) = ground (arith, given, probe_without_key)

app-refused_example :
    (r : Response) × (app small literal_axum ready first_draw 5 probe
      ≡ returned (ready, answered r))
    × ((r.status ≡ 401) ⊎ (r.status ≡ 403) ⊎ (r.status ≡ 500))
app-refused_example =
    app-refused small literal_axum ready first_draw 5 probe (Auth.KeyStoreDispatch.sqlite one_key)
      refl refl refl probe_not-IsAccepted

finish-CountsOnce_example :
    (log' : List MetricEvent) × ((finish small ready no_text waiting_request no_response_in_time
        9).0.metrics
      ≡ some log')
    × (status : ℕ) × IsSeen small list_prometheus no_text
        (status_sent small list_prometheus no_text (
          forward_to_upstream small no_text ready.config.server.request_timeout_ms
            no_response_in_time))
        (finish small ready no_text waiting_request no_response_in_time 9).1
        status
    × CountsOnce small list_prometheus no_text
        (labels_of small list_prometheus no_text waiting_request status)
        []
        log'
finish-CountsOnce_example =
    finish-CountsOnce small list_prometheus no_text ready [] waiting_request no_response_in_time 9
      list_prometheus-IsLawful refl
