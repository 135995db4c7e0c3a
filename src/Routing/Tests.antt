-- ===== src/Routing/Tests.antt =====
-- The theorems on src/routing/ for a concrete configuration.
use soroban_gate.Common.{
  ◌≡◌, [], ◌∷◌, String, str_eq, str_eq_iff, arith, refl, subst, true, false, Bool-cases, inl, inr,
}
use mathlib.Core.List.Perm
use soroban_gate.Config.{RoutingConfig, RoutingRule}
use soroban_gate.Routing.Tables.{IsUnambiguous, table, table-Perm}

abbrev sends : RoutingRule
sends = record { methods = "sendTransaction" ∷ []; pool = "main" }

abbrev simulates : RoutingRule
simulates = record { methods = "simulateTransaction" ∷ []; pool = "slow" }

abbrev two_rules : RoutingConfig
two_rules = record { default_pool = "main"; rules = sends ∷ simulates ∷ [] }

not_both :
    (method : String)
    → str_eq "sendTransaction" method ≡ true
    → str_eq "simulateTransaction" method ≡ false
not_both method e =
    subst (λ m. str_eq "simulateTransaction" m ≡ false) ((str_eq_iff "sendTransaction" method).0 e)
      refl

two_rules-IsUnambiguous : IsUnambiguous two_rules.rules
two_rules-IsUnambiguous method = elim (Bool-cases (str_eq "sendTransaction" method)) [
  | inl e ↦ ground (arith, e, not_both method e)
  | inr e ↦ ground (arith, e)
]

table-Perm_example : table two_rules ≡ table (record two_rules { rules = simulates ∷ sends ∷ [] })
table-Perm_example =
    table-Perm two_rules (simulates ∷ sends ∷ []) two_rules-IsUnambiguous
      (Perm.swap simulates sends [])
