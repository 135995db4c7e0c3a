-- ===== src/Auth/Tests.antt =====
-- The theorem on src/auth/mod.rs at a concrete request.
use soroban_gate.Common.{
  ◌≡◌, true, List, [], ◌∷◌, Option, none, some, String, if◌then◌else◌, str_eq, refl,
}
use soroban_gate.External.Http.{HeaderMap, HeaderValue, Uri}
use soroban_gate.Auth.Extract.{extract_api_key}
use soroban_gate.Auth.Extract.Sources.{is_readable, first_non_empty, offered, extract_api_key-first}

abbrev readable : String → Option HeaderValue
readable text = some (record { to_str = some text })

-- An empty bearer token, and a key of its own.
abbrev headers : HeaderMap
headers = record {
  get = λ name.
      if str_eq name "Authorization"
      then readable "Bearer "
      else if str_eq name "X-API-Key"
      then readable "sk_1"
      else none;
}

abbrev uri : Uri
uri = record { path = "/"; query = some "api_key=sk_2" }

abbrev parse : String → List (String × String)
parse query = ("api_key", "sk_2") ∷ []

authorization_readable : is_readable (headers.get "Authorization") ≡ true
unfolding is_readable
authorization_readable = refl

x_api_key_readable : is_readable (headers.get "X-API-Key") ≡ true
unfolding is_readable
x_api_key_readable = refl

extract_api_key-first_example :
    extract_api_key parse headers uri ≡ first_non_empty (offered parse headers uri)
extract_api_key-first_example =
    extract_api_key-first parse headers uri authorization_readable x_api_key_readable
