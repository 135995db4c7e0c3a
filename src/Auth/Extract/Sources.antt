-- ===== src/Auth/Extract/Sources.antt =====
-- src/auth/mod.rs: the keys that a request offers, in the order of preference, and which of them is taken.
use soroban_gate.Common.{
  ◌≡◌, refl, Bool, true, false, List, [], ◌∷◌, ◌++◌, Option, none, some, String, if◌then◌else◌,
  str_eq, Option-cases, inl, inr, arith,
}
use soroban_gate.Common.Text.{strip_prefix, is_empty_str}
use soroban_gate.External.Http.{HeaderMap, HeaderValue, Uri}
use soroban_gate.Auth.Extract.{
  from_pairs, from_query, from_x_api_key, from_authorization, extract_api_key,
}

-- A header that is absent, or that is visible ASCII.
unfoldable pub is_readable : Option HeaderValue → Bool
is_readable none = true
is_readable (some value) = elim value.to_str [ none ↦ false | some text ↦ true ]

unfoldable pub texts : Option HeaderValue → List String
texts none = []
texts (some value) = elim value.to_str [ none ↦ [] | some text ↦ text ∷ [] ]

unfoldable pub bearers : List String → List String
bearers [] = []
bearers (t ∷ ts) =
    let rest = bearers ts in elim (strip_prefix t "Bearer ") [ none ↦ rest | some key ↦ key ∷ rest ]

unfoldable pub parameters : List (String × String) → List String
parameters [] = []
parameters ((k, v) ∷ ps) = let rest = parameters ps in if str_eq k "api_key" then v ∷ rest else rest

unfoldable pub query_pairs :
    (String → List (String × String)) → Option String → List (String × String)
query_pairs parse none = []
query_pairs parse (some query) = parse query

unfoldable pub first_non_empty : List String → Option String
first_non_empty [] = none
first_non_empty (t ∷ ts) = let rest = first_non_empty ts in if is_empty_str t then rest else some t

-- Every key of the request: bearer tokens, then `X-API-Key`, then the query's parameters.
unfoldable pub offered : (String → List (String × String)) → HeaderMap → Uri → List String
offered parse headers uri =
    bearers (texts (headers.get "Authorization"))
    ++ texts (headers.get "X-API-Key")
    ++ parameters (query_pairs parse uri.query)

from_pairs-parameters :
    (ps : List (String × String)) → from_pairs ps ≡ first_non_empty (parameters ps)
unfolding from_pairs parameters first_non_empty
from_pairs-parameters [] = refl
from_pairs-parameters ((k, v) ∷ ps) = ground (arith, from_pairs-parameters ps)

module _ (parse : String → List (String × String)) where
  from_query-parameters :
      (q : Option String) → from_query parse q ≡ first_non_empty (parameters (query_pairs parse q))
  unfolding from_query query_pairs parameters first_non_empty
  from_query-parameters none = refl
  from_query-parameters (some q) = from_pairs-parameters (parse q)

  from_x_api_key-offered :
      (h : Option HeaderValue) (uri : Uri)
      → is_readable h ≡ true
      → from_x_api_key parse h uri
        ≡ first_non_empty (texts h ++ parameters (query_pairs parse uri.query))
  unfolding from_x_api_key is_readable texts first_non_empty
  from_x_api_key-offered none uri e = from_query-parameters uri.query
  from_x_api_key-offered (some value) uri e = elim (Option-cases value.to_str) [
    | inl m ↦ ground (arith, m, e)
    | inr (t, m) ↦ ground (arith, m, from_query-parameters uri.query)
  ]

  from_authorization-offered :
      (h : Option HeaderValue) (headers : HeaderMap) (uri : Uri)
      → is_readable h ≡ true
      → is_readable (headers.get "X-API-Key") ≡ true
      → from_authorization parse h headers uri
        ≡ first_non_empty (
            bearers (texts h)
            ++ texts (headers.get "X-API-Key")
            ++ parameters (query_pairs parse uri.query))
  unfolding from_authorization is_readable texts bearers first_non_empty
  from_authorization-offered none headers uri e e' =
      from_x_api_key-offered (headers.get "X-API-Key") uri e'
  from_authorization-offered (some value) headers uri e e' =
      let next = from_x_api_key-offered (headers.get "X-API-Key") uri e' in
      elim (Option-cases value.to_str) [
        | inl m ↦ ground (arith, m, e)
        | inr (t, m) ↦ elim (Option-cases (strip_prefix t "Bearer ")) [
          | inl p ↦ ground (arith, m, p, next)
          | inr (k, p) ↦ ground (arith, m, p, next)
        ]
      ]

  -- Where the two headers are absent or readable, the key of a request is the first non-empty one
  -- among the bearer token, the `X-API-Key` header and the `api_key` parameters of the query.
  pub extract_api_key-first :
      (headers : HeaderMap) (uri : Uri)
      → is_readable (headers.get "Authorization") ≡ true
      → is_readable (headers.get "X-API-Key") ≡ true
      → extract_api_key parse headers uri ≡ first_non_empty (offered parse headers uri)
  unfolding extract_api_key offered
  extract_api_key-first headers uri e e' =
      from_authorization-offered (headers.get "Authorization") headers uri e e'
