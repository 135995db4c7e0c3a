-- ===== src/Auth/Conformance.antt =====
-- src/auth/mod.rs, the tests at its end, run on the model. The decoded pairs of the query string are
-- those that the test's query has.
use soroban_gate.Common.{
  ◌≡◌, refl, Bool, true, false, List, [], ◌∷◌, Option, none, some, String, str_eq, if◌then◌else◌,
}
use soroban_gate.Common.Text.{strip_prefix}
use soroban_gate.External.Http.{HeaderMap, HeaderValue, Uri}
use soroban_gate.Auth.Extract.{
  extract_api_key, from_authorization, from_x_api_key, from_query, from_pairs,
}

abbrev same_text : Option String → Option String → Bool
same_text none none = true
same_text (some a) (some b) = str_eq a b
same_text _ _ = false

abbrev value_of : List (String × String) → String → Option HeaderValue
value_of [] name = none
value_of ((n, v) ∷ rest) name =
    if str_eq n name then some (record { to_str = some v }) else value_of rest name

-- `HeaderMap::new()` and `insert`, with names in the case that the code asks for.
abbrev headers_of : List (String × String) → HeaderMap
headers_of entries = record { get = λ name. value_of entries name }

-- `Uri::from_static`.
abbrev root : Uri
root = record { path = "/"; query = none }

abbrev with_query : String → Uri
with_query query = record { path = "/"; query = some query }

abbrev parse : String → List (String × String)
parse query =
    if str_eq query "api_key=sk_test_query"
    then ("api_key", "sk_test_query") ∷ []
    else if str_eq query "api_key=sk_query"
    then ("api_key", "sk_query") ∷ []
    else []

-- `assert_eq!(extract_api_key(&headers, &uri), …)`.
abbrev gives : List (String × String) → Uri → Option String → Bool
gives entries uri expected = same_text (extract_api_key parse (headers_of entries) uri) expected

unfoldable test_extract_bearer_token : Bool
test_extract_bearer_token =
    gives (("Authorization", "Bearer sk_test_abc123") ∷ []) root (some "sk_test_abc123")

unfoldable test_extract_x_api_key : Bool
test_extract_x_api_key = gives (("X-API-Key", "sk_test_xyz789") ∷ []) root (some "sk_test_xyz789")

unfoldable test_extract_query_param : Bool
test_extract_query_param = gives [] (with_query "api_key=sk_test_query") (some "sk_test_query")

unfoldable test_bearer_takes_precedence : Bool
test_bearer_takes_precedence =
    gives (("Authorization", "Bearer sk_bearer") ∷ ("X-API-Key", "sk_header") ∷ [])
      (with_query "api_key=sk_query") (some "sk_bearer")

unfoldable test_no_key_returns_none : Bool
test_no_key_returns_none = gives [] root none

unfoldable test_empty_bearer_ignored : Bool
test_empty_bearer_ignored = gives (("Authorization", "Bearer ") ∷ []) root none

unfoldable test_wrong_auth_scheme_ignored : Bool
test_wrong_auth_scheme_ignored = gives (("Authorization", "Basic dXNlcjpwYXNz") ∷ []) root none

test_extract_bearer_token_passes : test_extract_bearer_token ≡ true
unfolding test_extract_bearer_token extract_api_key from_authorization from_x_api_key from_query
    from_pairs strip_prefix
test_extract_bearer_token_passes = refl

test_extract_x_api_key_passes : test_extract_x_api_key ≡ true
unfolding test_extract_x_api_key extract_api_key from_authorization from_x_api_key from_query
    from_pairs strip_prefix
test_extract_x_api_key_passes = refl

test_extract_query_param_passes : test_extract_query_param ≡ true
unfolding test_extract_query_param extract_api_key from_authorization from_x_api_key from_query
    from_pairs strip_prefix
test_extract_query_param_passes = refl

test_bearer_takes_precedence_passes : test_bearer_takes_precedence ≡ true
unfolding test_bearer_takes_precedence extract_api_key from_authorization from_x_api_key from_query
    from_pairs strip_prefix
test_bearer_takes_precedence_passes = refl

test_no_key_returns_none_passes : test_no_key_returns_none ≡ true
unfolding test_no_key_returns_none extract_api_key from_authorization from_x_api_key from_query
    from_pairs strip_prefix
test_no_key_returns_none_passes = refl

test_empty_bearer_ignored_passes : test_empty_bearer_ignored ≡ true
unfolding test_empty_bearer_ignored extract_api_key from_authorization from_x_api_key from_query
    from_pairs strip_prefix
test_empty_bearer_ignored_passes = refl

test_wrong_auth_scheme_ignored_passes : test_wrong_auth_scheme_ignored ≡ true
unfolding test_wrong_auth_scheme_ignored extract_api_key from_authorization from_x_api_key
    from_query from_pairs strip_prefix
test_wrong_auth_scheme_ignored_passes = refl
