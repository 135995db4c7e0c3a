-- ===== src/Server/Tests/Serving.antt =====
-- The theorems on the gateway as its clients drive it, at concrete gateways.
use soroban_gate.Common.{◌≢◌, refl, String, [], ◌∷◌}
use soroban_gate.Common.Outcome.{err}
use soroban_gate.Pool.CircuitBreaker.{closed}
use soroban_gate.External.Instances.Web.{literal_axum, literal_axum-IsLawful}
use soroban_gate.Server.Http.{Body}
use soroban_gate.Server.Admin.Dispatch.{AdminRequest, admin_app}
use soroban_gate.Server.Gateway.{Gateway, started}
use soroban_gate.Server.Gateway.Serving.{
  begins, goes_on, is_administered, is_completed, Serves-not_closed,
}
use soroban_gate.Server.Proxy.{finish, response}
use soroban_gate.Server.Tests.{small, ready, waiting_request, no_text}
use soroban_gate.Server.Tests.Traffic.{tripped, tripped_gateway, open-ne-closed}

abbrev same_text : String → String
same_text s = s

abbrev enable_request : AdminRequest small
enable_request = record {
  method = "POST";
  path = "/admin/upstreams/http%3A%2F%2Fa/enable";
  payload = err (record { status = 415; headers = []; body = Body.bytes [] });
}

abbrev administered : Gateway small
administered = record (started small ready) {
  state = (admin_app small literal_axum same_text ready enable_request 1 5).0;
}

-- A success, and then the admin request.
abbrev after_success : Gateway small
after_success = record {
  state = (finish small tripped no_text waiting_request (response 200 [] (5 ∷ [])) 9).0;
  inflight = [];
  dropped = [];
}

abbrev after_both : Gateway small
after_both = record after_success {
  state = (admin_app small literal_axum same_text after_success.state enable_request 1 10).0;
}

Serves-not_closed_example : (after_both.state.heap 0).mutable_.circuit_breaker.state ≢ closed
Serves-not_closed_example =
    Serves-not_closed small literal_axum {g = tripped_gateway} {h = after_both} 0
      literal_axum-IsLawful
      (goes_on
        (goes_on begins
          (is_completed no_text [] [] waiting_request (response 200 [] (5 ∷ [])) 9 refl))
        (is_administered same_text enable_request 1 10))
      open-ne-closed
