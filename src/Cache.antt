-- ===== src/Cache.antt =====
-- src/cache/mod.rs: how long a method's responses are kept, and the key of a request.
pub mod Memory
pub mod Keys
mod Tests
use soroban_gate.Common.{
  ℕ, zero, suc, ◌*◌, Bool, List, [], ◌∷◌, Option, none, some, String, if◌then◌else◌, ◌==◌,
}
use soroban_gate.Common.HashMap
use soroban_gate.Config.{CacheRule}
use soroban_gate.External.SerdeJson.{SerdeJson}

pub record CacheStats : Type 0 where
  pub hit_count : ℕ
  pub miss_count : ℕ
  pub size : ℕ
  pub eviction_count : ℕ

pub record TtlTable : Type 0 where
  pub rules : List (String × ℕ)

unfoldable pub insert_ttl_rules : List CacheRule → List (String × ℕ) → List (String × ℕ)
insert_ttl_rules [] rules = rules
insert_ttl_rules (r ∷ rs) rules =
    insert_ttl_rules rs (HashMap.insert_each r.methods r.ttl_secs rules)

unfoldable pub new : List CacheRule → TtlTable
new rules = record { rules = insert_ttl_rules rules [] }

-- In nanoseconds.
unfoldable pub ttl_for : TtlTable → String → ℕ
ttl_for table method = elim (HashMap.get method table.rules) [
  | none ↦ 0
  | some secs ↦ if secs == 0 then 0 else secs * 1_000_000_000
]

module _ (j : SerdeJson) where
  abbrev pub parsed_or_null : Option j.Value → j.Value
  parsed_or_null none = j.null
  parsed_or_null (some value) = value

  -- The request without its `id` and `jsonrpc`, where it is an object.
  unfoldable pub without_envelope : j.Value → j.Value
  without_envelope value =
      if j.is_object value then j.remove "jsonrpc" (j.remove "id" value) else value

abbrev pub canonical_or : Option (List ℕ) → List ℕ → List ℕ
canonical_or none body = body
canonical_or (some bytes) body = bytes

unfoldable pub compute_cache_key : (j : SerdeJson) → (List ℕ → List ℕ) → List ℕ → List ℕ
compute_cache_key j sha256 body =
    let value = without_envelope j (parsed_or_null j (j.from_slice body)) in
    sha256 (canonical_or (j.to_vec value) body)
