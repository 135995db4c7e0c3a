-- ===== src/Server/Http.antt =====
-- Requests and responses as the handlers of src/server/ see them, the JSON that `json!` builds,
-- and the three functions that make an error response.
use soroban_gate.Common.{ℕ, List, [], ◌∷◌, Bool, Option, String}
use soroban_gate.Common.Words.{ℤ, negsuc}
use soroban_gate.Auth.{AuthTier, AuthKeyId}
use soroban_gate.External.Http.{HeaderMap, Uri}

-- `Json.number n d` is the fraction n / d of a rounded floating-point number.
mutual
  pub data Json : Type 0 where
    null : Json
    boolean : Bool → Json
    integer : ℤ → Json
    number : ℕ → ℕ → Json
    string : String → Json
    array : Items → Json
    object : Members → Json

  pub data Items : Type 0 where
    no_items : Items
    item : Json → Items → Items

  pub data Members : Type 0 where
    no_members : Members
    member : String → Json → Members → Members

-- A body that could not be read is `none`.
pub record Request : Type 0 where
  pub method : String
  pub headers : HeaderMap
  pub uri : Uri
  pub body : Option (List ℕ)
  pub auth_tier : Option AuthTier
  pub auth_key_id : Option AuthKeyId

pub data Body : Type 0 where
  json : Json → Body
  bytes : List ℕ → Body
  text : String → Body

pub record Response : Type 0 where
  pub status : ℕ
  pub headers : List (String × String)
  pub body : Body

abbrev pub error_object : ℤ → String → Json
error_object code message = object (
    member "jsonrpc" (string "2.0") (
      member "id" null (
        member "error"
          (object (member "code" (integer code) (member "message" (string message) no_members)))
          no_members)))

abbrev content_json : List (String × String)
content_json = ("Content-Type", "application/json") ∷ []

abbrev pub json_response : ℕ → Json → Response
json_response status value = record { status = status; headers = content_json; body = json value }

unfoldable pub json_error_response : ℕ → ℤ → String → Response
json_error_response status code message = json_response status (error_object code message)

unfoldable pub rate_limit_response : Response
rate_limit_response = json_response 429 (error_object (negsuc 32_004) "Rate limit exceeded")

unfoldable pub auth_error_response : ℕ → ℤ → String → Response
auth_error_response status code message = json_response status (error_object code message)
