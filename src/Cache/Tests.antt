-- ===== src/Cache/Tests.antt =====
-- The theorems on src/cache/mod.rs at concrete requests and rules.
use soroban_gate.Common.{ℕ, ◌≡◌, ◌≢◌, true, false, List, [], ◌∷◌, String, refl, arith, str_eq_iff}
use soroban_gate.Cache.{compute_cache_key}
use soroban_gate.Cache.Keys.{compute_cache_key_same}
use soroban_gate.External.Instances.{names_json, names_json-IsLawful, envelope}

abbrev identity : List ℕ → List ℕ
identity bs = bs

abbrev with_id : List ℕ
with_id = 1 ∷ []

abbrev without_id : List ℕ
without_id = 2 ∷ []

abbrev id_text : String
id_text = "id"

same_members :
    (q : String)
    → q ≢ "id"
    → q ≢ "jsonrpc"
    → names_json.get q (envelope true) ≡ names_json.get q (envelope false)
same_members q n m = ground (arith, str_eq_iff q "id", str_eq_iff q "jsonrpc", n, m)

compute_cache_key_same_example :
    compute_cache_key names_json identity with_id ≡ compute_cache_key names_json identity without_id
compute_cache_key_same_example =
    compute_cache_key_same names_json identity with_id without_id (envelope true) (envelope false)
      names_json-IsLawful refl refl refl refl same_members
