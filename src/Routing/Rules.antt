-- ===== src/Routing/Rules.antt =====
-- src/routing/mod.rs: the router against the configured rules.
use soroban_gate.Common.{
  ◌≡◌, refl, subst, inl, inr, List, [], ◌∷◌, Option, none, some, String, arith, All, if◌then◌else◌,
  Option-cases,
}
use soroban_gate.Common.HashMap
use soroban_gate.Common.HashMap.{listed, get-insert_each}
use soroban_gate.Config.{Config, PoolConfig, RoutingConfig, RoutingRule}
use soroban_gate.Config.Validity.{IsNamed, IsValid, IsValidRule}
use soroban_gate.Routing.{insert_rules, new, route}

-- The pool of the last rule that lists the method.
abbrev pub last_rule : String → List RoutingRule → Option String
last_rule method [] = none
last_rule method (r ∷ rs) = elim (last_rule method rs) [
  | none ↦ if listed method r.methods then some r.pool else none
  | some pool ↦ some pool
]

get-insert_rules :
    (method : String) (rs : List RoutingRule) (rules : List (String × String))
    → HashMap.get method (insert_rules rs rules)
      ≡ elim (last_rule method rs) [ none ↦ HashMap.get method rules | some pool ↦ some pool ]
unfolding insert_rules
get-insert_rules method [] rules = refl
get-insert_rules method (r ∷ rs) rules = ground (
  arith,
  get-insert_rules method rs (HashMap.insert_each r.methods r.pool rules),
  get-insert_each r.methods method r.pool rules,
)

-- A request goes to the pool of the last rule that lists its method, and to the default pool if no
-- rule does.
pub route-last_rule :
    (config : RoutingConfig) (method : String)
    → route (new config) method
      ≡ elim (last_rule method config.rules) [ none ↦ config.default_pool | some pool ↦ pool ]
unfolding route new
route-last_rule config method = ground (arith, get-insert_rules method config.rules [])

last_rule-IsNamed :
    (pools : List PoolConfig) (method : String) (rs : List RoutingRule) (pool : String)
    → All (IsValidRule pools) rs
    → last_rule method rs ≡ some pool
    → IsNamed pool pools
last_rule-IsNamed pools method [] pool v e = cc
last_rule-IsNamed pools method (r ∷ rs) pool v e = elim (Option-cases (last_rule method rs)) [
  | inl missed ↦ subst (λ q. IsNamed q pools) (ground arith) v.0.1
  | inr (p, found) ↦ last_rule-IsNamed pools method rs pool v.1 (ground arith)
]

-- On a configuration that passes validation every method is routed to a pool that exists.
pub route-IsNamed :
    (c : Config) (method : String) → IsValid c → IsNamed (route (new c.routing) method) c.pools
route-IsNamed c method v = elim (Option-cases (last_rule method c.routing.rules)) [
  | inl missed ↦
      subst (λ q. IsNamed q c.pools) (ground (arith, route-last_rule c.routing method))
        v.default_pool
  | inr (pool, found) ↦
      subst (λ q. IsNamed q c.pools) (ground (arith, route-last_rule c.routing method))
        (last_rule-IsNamed c.pools method c.routing.rules pool v.rules found)
]
