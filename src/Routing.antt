-- ===== src/Routing.antt =====
-- src/routing/mod.rs: the choice of a pool by the method of a JSON-RPC request.
pub mod Rules
pub mod Tables
mod Tests
use soroban_gate.Common.{ℕ, List, [], ◌∷◌, Option, none, some, String}
use soroban_gate.Common.HashMap
use soroban_gate.Config.{RoutingConfig, RoutingRule}
use soroban_gate.External.SerdeJson.{SerdeJson}

pub record Router : Type 0 where
  pub rules : List (String × String)
  pub default_pool : String

-- The two loops of `Router::new`.
unfoldable pub insert_rules : List RoutingRule → List (String × String) → List (String × String)
unfolding HashMap.insert_each
insert_rules [] rules = rules
insert_rules (r ∷ rs) rules = insert_rules rs (HashMap.insert_each r.methods r.pool rules)

unfoldable pub new : RoutingConfig → Router
unfolding insert_rules
new config = record { rules = insert_rules config.rules []; default_pool = config.default_pool }

unfoldable pub route : Router → String → String
unfolding HashMap.get
route router method = elim (HashMap.get method router.rules) [
  | none ↦ router.default_pool
  | some pool ↦ pool
]

infixl 5 ◌>>=◌
abbrev ◌>>=◌ {ℓ κ} : {A : Type ℓ} {B : Type κ} → Option A → (A → Option B) → Option B
none >>= k = none
some a >>= k = k a

unfoldable pub extract_json_rpc_method : (j : SerdeJson) → List ℕ → Option String
extract_json_rpc_method j body = do
  value ← j.from_slice body
  method ← j.get "method" value
  j.as_str method
