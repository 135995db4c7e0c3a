-- ===== src/Cache/Keys.antt =====
-- src/cache/mod.rs: the cache keys of two requests, and the lifetime table against the rules.
use soroban_gate.Common.{
  ℕ, ◌*◌, ◌≡◌, refl, sym, ap, ◌∙◌, ◌≢◌, Bool, true, false, List, [], ◌∷◌, Option, none, some,
  String, arith, if◌then◌else◌, str_eq, str_eq_iff,
}
use soroban_gate.Common.HashMap
use soroban_gate.Common.HashMap.{listed, get-insert_each}
use soroban_gate.Config.{CacheRule}
use soroban_gate.External.SerdeJson.{SerdeJson, IsLawful}
use soroban_gate.Cache.{insert_ttl_rules, new, ttl_for, without_envelope, compute_cache_key}

module _ (j : SerdeJson) (lawful : IsLawful j) where
  is_object-without_envelope :
      (v : j.Value) → j.is_object v ≡ true → j.is_object (without_envelope j v) ≡ true
  unfolding without_envelope
  is_object-without_envelope v o =
      rw o
        (lawful.is_object-remove "jsonrpc" (j.remove "id" v) ∙ lawful.is_object-remove "id" v ∙ o)

  get-without_envelope :
      (q : String) (v : j.Value)
      → j.is_object v ≡ true
      → j.get q (without_envelope j v)
        ≡ (if str_eq "jsonrpc" q then none else if str_eq "id" q then none else j.get q v)
  unfolding without_envelope
  get-without_envelope q v o =
      let inner = lawful.is_object-remove "id" v ∙ o in
      rw o (
        lawful.get-remove "jsonrpc" q (j.remove "id" v) inner
        ∙ ap (λ r. if str_eq "jsonrpc" q then none else r) (lawful.get-remove "id" q v o))

  without_envelope-eq :
      (v w : j.Value)
      → j.is_object v ≡ true
      → j.is_object w ≡ true
      → ((q : String) → q ≢ "id" → q ≢ "jsonrpc" → j.get q v ≡ j.get q w)
      → without_envelope j v ≡ without_envelope j w
  without_envelope-eq v w ov ow same =
      lawful.object_ext (without_envelope j v) (without_envelope j w)
        (is_object-without_envelope v ov) (is_object-without_envelope w ow) member
    where
      other :
          (q : String) (a b : Bool)
          → str_eq "jsonrpc" q ≡ a
          → str_eq "id" q ≡ b
          → (if a then none else if b then none else j.get q v)
            ≡ (if a then none else if b then none else j.get q w)
      other q true b ea eb = refl
      other q false true ea eb = refl
      other q false false ea eb =
          same q (λ e. cc ((str_eq_iff "id" q).1 (sym e)))
            (λ e. cc ((str_eq_iff "jsonrpc" q).1 (sym e)))

      member : (q : String) → j.get q (without_envelope j v) ≡ j.get q (without_envelope j w)
      member q =
          get-without_envelope q v ov ∙ other q _ _ refl refl ∙ sym (get-without_envelope q w ow)

-- Two requests that parse as objects with the same members, but for `id` and `jsonrpc`, have the
-- same cache key, however their texts order and space the members.
pub compute_cache_key_same :
    (j : SerdeJson) (sha256 : List ℕ → List ℕ) (body other : List ℕ) (v w : j.Value)
    → IsLawful j
    → j.from_slice body ≡ some v
    → j.from_slice other ≡ some w
    → j.is_object v ≡ true
    → j.is_object w ≡ true
    → ((q : String) → q ≢ "id" → q ≢ "jsonrpc" → j.get q v ≡ j.get q w)
    → compute_cache_key j sha256 body ≡ compute_cache_key j sha256 other
unfolding compute_cache_key
compute_cache_key_same j sha256 body other v w lawful pv pw ov ow same =
    let (bytes, printed) = lawful.printable (without_envelope j v) in
    let equal = without_envelope-eq j lawful v w ov ow same in
    ground (arith, pv, pw, printed, equal)

-- The lifetime of the last rule that lists the method.
abbrev pub last_ttl : String → List CacheRule → Option ℕ
last_ttl method [] = none
last_ttl method (r ∷ rs) = elim (last_ttl method rs) [
  | none ↦ if listed method r.methods then some r.ttl_secs else none
  | some secs ↦ some secs
]

get-insert_ttl_rules :
    (method : String) (rs : List CacheRule) (rules : List (String × ℕ))
    → HashMap.get method (insert_ttl_rules rs rules)
      ≡ elim (last_ttl method rs) [ none ↦ HashMap.get method rules | some secs ↦ some secs ]
unfolding insert_ttl_rules
get-insert_ttl_rules method [] rules = refl
get-insert_ttl_rules method (r ∷ rs) rules = ground (
  arith,
  get-insert_ttl_rules method rs (HashMap.insert_each r.methods r.ttl_secs rules),
  get-insert_each r.methods method r.ttl_secs rules,
)

get-nil : (method : String) → HashMap.get {V = ℕ} method [] ≡ none
unfolding HashMap.get
get-nil method = refl

-- Responses to a method are kept for as long as the last rule that lists it says, and not at all
-- if none does.
pub ttl_for-last_ttl :
    (rules : List CacheRule) (method : String)
    → ttl_for (new rules) method
      ≡ elim (last_ttl method rules) [ none ↦ 0 | some secs ↦ secs * 1_000_000_000 ]
unfolding ttl_for new
ttl_for-last_ttl rules method = ground (arith, get-insert_ttl_rules method rules [], get-nil method)
