-- ===== src/External/Axum.antt =====
-- The `axum` crate (0.7), as far as requests are dispatched with it: a table of routes, each with a
-- path pattern, a method and what it leads to.
use soroban_gate.Common.{
  ◌≡◌, Bool, true, not, ◌&&◌, ◌||◌, List, [], ◌∷◌, Option, none, String, str_eq, if◌then◌else◌,
  ◌==◌,
}
use soroban_gate.Server.Http.{Response}
use Prim.Native.Char.{code}

pub record Route (A : Type 0) : Type 0 where
  pub path : String
  pub method : String
  pub target : A

-- What a table has for a request: a target with what the pattern captured, or nothing, for the
-- path or for the method.
pub data Found (A : Type 0) : Type 0 where
  matched : A → List (String × String) → Found A
  method_not_allowed : Found A
  not_found : Found A

pub record Axum : Type 1 where
  -- `Router::new().route(…)…` on a request's method and path.
  pub find : {A : Type 0} → List (Route A) → String → String → Found A
  -- The extractor `Path<String>`, on the captures.
  pub path_argument : List (String × String) → Option String
  pub not_found_response : Response
  pub method_not_allowed_response : Response
  -- The rejection of `Path<String>`.
  pub path_rejection : Response

-- In a pattern, `:` and `*` begin captures; a pattern without them is literal.
unfoldable pub is_literal : String → Bool
is_literal String.[] = true
is_literal (String.◌∷◌ c s) = not (code c == 58 || code c == 42) && is_literal s

abbrev pub all_literal : {A : Type 0} → List (Route A) → Bool
all_literal [] = true
all_literal (r ∷ rs) = is_literal r.path && all_literal rs

-- A route for GET also takes HEAD.
unfoldable pub serves : String → String → Bool
serves route_method method =
    str_eq route_method method || (str_eq route_method "GET" && str_eq method "HEAD")

abbrev pub add_path : Bool → {A : Type 0} → Found A → Found A
add_path true not_found = method_not_allowed
add_path here found = found

-- The dispatch of literal patterns.
unfoldable pub exact : {A : Type 0} → List (Route A) → String → String → Found A
unfolding serves
exact [] method path = not_found
exact (r ∷ rs) method path =
    let rest = exact rs method path in
    let here = str_eq r.path path in
    if here && serves r.method method then matched r.target [] else add_path here rest

pub record IsLawful (axum : Axum) : Type 1 where
  pub find-literal :
      {A : Type 0} (routes : List (Route A)) (method path : String)
      → all_literal routes ≡ true
      → axum.find routes method path ≡ exact routes method path
  pub no_captures : axum.path_argument [] ≡ none
  pub not_found_status : axum.not_found_response.status ≡ 404
  pub method_not_allowed_status : axum.method_not_allowed_response.status ≡ 405
  pub path_rejection_status : axum.path_rejection.status ≡ 500
