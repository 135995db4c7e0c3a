-- ===== src/Routing/Tables.antt =====
-- src/routing/mod.rs: the routing table as what it routes, without the order of the rules.
use soroban_gate.Common.{
  ◌≤◌, ◌≡◌, ◌∙◌, ap, sym, refl, subst, inl, inr, Bool, List, ◌∷◌, none, some, String, arith,
  Bool-cases, count, str_eq, str_eq_iff,
}
use mathlib.Core.Logic.{∥∥₁_elim}
use mathlib.Core.HLevel.{hedberg}
use mathlib.Core.List.{Perm, Permᴰ}
use mathlib.Core.Quot
use mathlib.Core.Quot.{Quot, Quot-set}
use soroban_gate.Common.HashMap.{listed}
use soroban_gate.Config.{RoutingConfig, RoutingRule}
use soroban_gate.Routing.{Router, new, route}
use soroban_gate.Routing.Rules.{last_rule, route-last_rule}

abbrev pub SameRoutes : Router → Router → Type 0
SameRoutes r q = (method : String) → route r method ≡ route q method

abbrev pub Table : Type 0
Table = Quot SameRoutes

abbrev pub table : RoutingConfig → Table
table config = Quot.mk (new config)

abbrev lists : String → RoutingRule → Bool
lists method r = listed method r.methods

-- No method stands in two rules.
abbrev pub IsUnambiguous : List RoutingRule → Type 0
IsUnambiguous rules = (method : String) → count (lists method) rules ≤ 1

String_discrete : Discrete String
String_discrete a b = elim (Bool-cases (str_eq a b)) [
  | inl same ↦ yes ((str_eq_iff a b).0 same)
  | inr differs ↦ no (λ e. ground (arith, differs, (str_eq_iff a b).1 e))
]

String_set : IsSet String
String_set = hedberg String_discrete

pub route_by : String → Table → String
route_by method = Quot.lift String_set (λ r. route r method) (λ r q h. h method)

count-Perm :
    (method : String) {rs qs : List RoutingRule}
    → Permᴰ rs qs
    → count (lists method) rs ≡ count (lists method) qs
count-Perm method Permᴰ.nil = refl
count-Perm method (Permᴰ.cons {a} {b} e p) =
    ground (arith, ap (lists method) e, count-Perm method p)
count-Perm method (Permᴰ.swap {a} {b} e f) =
    ground (arith, ap (lists method) e, ap (lists method) f)
count-Perm method (Permᴰ.trans p q) = count-Perm method p ∙ count-Perm method q

swapped :
    (method : String) (a b : RoutingRule) (rest : List RoutingRule)
    → count (lists method) (a ∷ b ∷ rest) ≤ 1
    → last_rule method (a ∷ b ∷ rest) ≡ last_rule method (b ∷ a ∷ rest)
swapped method a b rest h = ground arith

last_rule-Perm :
    (method : String) {rs qs : List RoutingRule}
    → Permᴰ rs qs
    → count (lists method) rs ≤ 1
    → last_rule method rs ≡ last_rule method qs
last_rule-Perm method Permᴰ.nil h = refl
last_rule-Perm method (Permᴰ.cons {a} {l₁} {l₂} e p) h =
    let fewer : count (lists method) l₁ ≤ 1 = ground arith in
    subst (λ x. last_rule method (a ∷ l₁) ≡ last_rule method (x ∷ l₂)) e
      (ground (arith, last_rule-Perm method p fewer))
last_rule-Perm method (Permᴰ.swap {a} {b} {b'} {l} e f) h =
    subst (λ x. last_rule method (a ∷ b ∷ l) ≡ last_rule method (x ∷ b' ∷ l)) f
      (subst (λ y. last_rule method (a ∷ b ∷ l) ≡ last_rule method (b ∷ y ∷ l)) e
        (swapped method a b l h))
last_rule-Perm method (Permᴰ.trans p q) h =
    last_rule-Perm method p h ∙ last_rule-Perm method q (subst (λ n. n ≤ 1) (count-Perm method p) h)

-- Where no method stands in two rules, the rules in another order give the same table.
pub table-Perm :
    (config : RoutingConfig) (rules : List RoutingRule)
    → IsUnambiguous config.rules
    → Perm config.rules rules
    → table config ≡ table (record config { rules = rules })
table-Perm config rules once same_rules = ∥∥₁_elim same_rules (Quot-set _ _) (λ p.
    Quot.sound (λ method.
      route-last_rule config method
      ∙ ap (λ o. elim o [ none ↦ config.default_pool | some pool ↦ pool ])
          (last_rule-Perm method p (once method))
      ∙ sym (route-last_rule (record config { rules = rules }) method)))

-- A table routes each method as every configuration behind it does.
route_by-table :
    (config : RoutingConfig) (method : String)
    → route_by method (table config) ≡ route (new config) method
unfolding route_by
route_by-table config method = refl
