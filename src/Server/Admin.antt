-- ===== src/Server/Admin.antt =====
-- src/server/admin.rs: the admin API. `percent_decode` is a parameter.
pub mod Laws
pub mod KeyLife
pub mod Kept
pub mod Status
pub mod Dispatch
pub mod Effects
use soroban_gate.Common.{
  ℕ, ◌+◌, Bool, true, false, not, List, [], ◌∷◌, Option, none, some, String, if◌then◌else◌, str_eq,
  length,
}
use soroban_gate.Common.Text.{cat, is_empty_str}
use soroban_gate.Common.Words.{ℤ, pos}
use soroban_gate.Common.Outcome.{Result, ok, err}
use soroban_gate.Pool.CircuitBreaker
use soroban_gate.Pool.Upstream.{UpstreamState, Arc, Heap, update, seconds, healthy, unhealthy}
use soroban_gate.Pool.Pools.{UpstreamPool}
use soroban_gate.Cache.Memory
use soroban_gate.Auth
use soroban_gate.Auth.Entry.{KeyEntry}
use soroban_gate.Auth.Store.{StoreError}
use soroban_gate.External.SerdeJson.{SerdeJson}
use soroban_gate.Server.Http.{
  Json, Items, Members, string, integer, boolean, array, object, no_items, item, no_members, member,
}
use soroban_gate.Server.State.{Libraries, AppState, Keys}

-- A handler's answer, `(StatusCode, Json<Value>)`.
abbrev pub Answer : Type 0
Answer = ℕ × Json

abbrev pub error_json : String → Json
error_json message = object (member "error" (string message) no_members)

abbrev ok_json : String → Json
ok_json message =
    object (member "status" (string "ok") (member "message" (string message) no_members))

unfoldable pub reload_handler : Answer
reload_handler = (501, error_json "Hot reload not yet implemented")

-- The first upstream of the pools' order with the address.
unfoldable pub find_upstream : Heap → String → List Arc → Option Arc
find_upstream heap target_url [] = none
find_upstream heap target_url (a ∷ rest) =
    if str_eq (heap a).url target_url then some a else find_upstream heap target_url rest

abbrev pub or_else {ℓ} : {A : Type ℓ} → Option A → Option A → Option A
or_else none o = o
or_else (some a) o = some a

unfoldable pub find_in_pools : Heap → String → List UpstreamPool → Option Arc
unfolding find_upstream
find_in_pools heap target_url [] = none
find_in_pools heap target_url (p ∷ ps) =
    or_else (find_upstream heap target_url p.upstreams) (find_in_pools heap target_url ps)

abbrev pub force_enable : ℕ → UpstreamState → UpstreamState
force_enable now u = record u {
  mutable_ = record u.mutable_ {
    health = healthy;
    circuit_breaker = CircuitBreaker.new 5 (seconds 30) now;
  };
}

abbrev pub force_disable : UpstreamState → UpstreamState
force_disable u = record u { mutable_ = record u.mutable_ { health = unhealthy } }

module _ (l : Libraries) where
  unfoldable pub set_upstream_health :
      (String → String) → AppState l → String → Bool → ℕ → AppState l × Answer
  unfolding find_in_pools CircuitBreaker.new
  set_upstream_health percent_decode state encoded_url enable now =
      let target_url = percent_decode encoded_url in
      elim (find_in_pools state.heap target_url state.pools) [
        | none ↦ (state, (404, error_json (cat "Upstream '" (cat target_url "' not found"))))
        | some a ↦ (
          record state {
            heap =
                update state.heap a (λ u. if enable then force_enable now u else force_disable u);
          },
          (
            200,
            object (
                member "status" (string "ok") (
                  member "upstream" (string target_url) (
                    member "action" (string (if enable then "enabled" else "disabled"))
                      no_members))),
          ),
        )
      ]

  unfoldable pub upstream_enable_handler :
      (String → String) → AppState l → String → ℕ → AppState l × Answer
  unfolding set_upstream_health
  upstream_enable_handler percent_decode state encoded_url now =
      set_upstream_health percent_decode state encoded_url true now

  unfoldable pub upstream_disable_handler :
      (String → String) → AppState l → String → ℕ → AppState l × Answer
  unfolding set_upstream_health
  upstream_disable_handler percent_decode state encoded_url now =
      set_upstream_health percent_decode state encoded_url false now

  unfoldable pub cache_flush_handler : AppState l → AppState l × Answer
  unfolding Memory.flush
  cache_flush_handler state = elim state.cache [
    | none ↦ (state, (200, ok_json "Cache is disabled"))
    | some cache ↦
        (record state { cache = some (Memory.flush l.moka cache) }, (200, ok_json "Cache flushed"))
  ]

  abbrev listed_key : KeyEntry → Json
  listed_key k = object (
      member "id" (string k.id) (
        member "tier" (string k.tier) (
          member "label" (string k.label) (
            member "is_revoked" (boolean k.is_revoked)
              (member "created_at" (integer (pos k.created_at)) no_members)))))

  unfoldable pub safe_keys : List KeyEntry → Items
  safe_keys [] = no_items
  safe_keys (k ∷ ks) = item (listed_key k) (safe_keys ks)

  abbrev listing : Result (List KeyEntry) StoreError → Answer
  listing (err e) = (500, error_json "Failed to list API keys")
  listing (ok keys) = (
    200,
    object (
        member "keys" (array (safe_keys keys))
          (member "total" (integer (pos (length keys))) no_members)),
  )

  unfoldable pub keys_list_handler : AppState l → Answer
  unfolding Auth.list_keys safe_keys
  keys_list_handler state = elim state.key_store [
    | none ↦ (501, error_json "Key store is disabled")
    | some store ↦ listing (Auth.list_keys l.sqlite l.argon2 l.sha256_text store)
  ]

  -- `payload.get(field).and_then(|v| v.as_str())`.
  unfoldable pub text_field : l.serde_json.Value → String → Option String
  text_field payload field = elim (l.serde_json.get field payload) [
    | none ↦ none
    | some v ↦ l.serde_json.as_str v
  ]

  abbrev pub unwrap_or : Option String → String → String
  unwrap_or none d = d
  unwrap_or (some s) d = s

  abbrev pub created : AppState l → Keys l × Result KeyEntry StoreError → AppState l × Answer
  created state (store, err e) =
      (record state { key_store = some store }, (500, error_json "Failed to create API key"))
  created state (store, ok entry) = (
    record state { key_store = some store },
    (
      201,
      object (
          member "status" (string "ok") (
            member "key"
              (object (
                member "id" (string entry.id) (
                  member "tier" (string entry.tier) (
                    member "label" (string entry.label)
                      (member "created_at" (integer (pos entry.created_at)) no_members)))))
              no_members)),
    ),
  )

  abbrev pub create_in : AppState l → l.serde_json.Value → String → ℕ → ℕ → AppState l × Answer
  create_in state payload raw_key salt now = elim state.key_store [
    | none ↦ (state, (501, error_json "Key store is disabled"))
    | some store ↦ created state (
        Auth.create_key l.sqlite l.argon2 l.sha256_text store raw_key
          (unwrap_or (text_field payload "tier") "default")
          (unwrap_or (text_field payload "label") "") salt now)
  ]

  unfoldable pub keys_create_handler : AppState l → l.serde_json.Value → ℕ → ℕ → AppState l × Answer
  unfolding text_field Auth.create_key
  keys_create_handler state payload salt now = elim (text_field payload "key") [
    | none ↦ (state, (400, error_json "Field 'key' is required"))
    | some key ↦
        if is_empty_str key
        then (state, (400, error_json "Field 'key' is required"))
        else create_in state payload key salt now
  ]

  abbrev pub deleted : AppState l → String → Keys l × Result Bool StoreError → AppState l × Answer
  deleted state id (store, err e) =
      (record state { key_store = some store }, (500, error_json "Failed to revoke API key"))
  deleted state id (store, ok found) = (
    record state { key_store = some store },
    if found
        then (200, ok_json "Key revoked")
        else (404, error_json (cat "Key '" (cat id "' not found"))),
  )

  unfoldable pub keys_delete_handler : AppState l → String → AppState l × Answer
  unfolding Auth.revoke_key
  keys_delete_handler state id = elim state.key_store [
    | none ↦ (state, (501, error_json "Key store is disabled"))
    | some store ↦ deleted state id (Auth.revoke_key l.sqlite l.argon2 l.sha256_text store id)
  ]
