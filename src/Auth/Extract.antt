-- ===== src/Auth/Extract.antt =====
-- src/auth/mod.rs, `extract_api_key`: the three places where a request may carry its key. The
-- decoding of a query string (`form_urlencoded::parse`) is a parameter.
pub mod Sources
use soroban_gate.Common.{
  Bool, not, ◌&&◌, List, [], ◌∷◌, Option, none, some, String, if◌then◌else◌, str_eq,
}
use soroban_gate.Common.Text.{strip_prefix, is_empty_str}
use soroban_gate.External.Http.{HeaderMap, HeaderValue, Uri}

-- The loop over the pairs of the query.
unfoldable pub from_pairs : List (String × String) → Option String
from_pairs [] = none
from_pairs ((k, v) ∷ ps) =
    if str_eq k "api_key" && not (is_empty_str v) then some v else from_pairs ps

module _ (parse : String → List (String × String)) where
  unfoldable pub from_query : Option String → Option String
  from_query none = none
  from_query (some query) = from_pairs (parse query)

  -- The part of the code from the second header on. A value that is no visible ASCII ends the
  -- search (`.ok()?`).
  unfoldable pub from_x_api_key : Option HeaderValue → Uri → Option String
  from_x_api_key none uri = from_query uri.query
  from_x_api_key (some value) uri = elim value.to_str [
    | none ↦ none
    | some key ↦ if not (is_empty_str key) then some key else from_query uri.query
  ]

  unfoldable pub from_authorization : Option HeaderValue → HeaderMap → Uri → Option String
  from_authorization none headers uri = from_x_api_key (headers.get "X-API-Key") uri
  from_authorization (some value) headers uri = elim value.to_str [
    | none ↦ none
    | some text ↦ elim (strip_prefix text "Bearer ") [
      | none ↦ from_x_api_key (headers.get "X-API-Key") uri
      | some key ↦
          if not (is_empty_str key) then some key else from_x_api_key (headers.get "X-API-Key") uri
    ]
  ]

  unfoldable pub extract_api_key : HeaderMap → Uri → Option String
  unfolding from_authorization
  extract_api_key headers uri = from_authorization (headers.get "Authorization") headers uri
