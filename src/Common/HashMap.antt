-- ===== src/Common/HashMap.antt =====
-- `std::collections::HashMap` with `String` keys as an association list: `get` and `insert`.
use Prim.Native.String.{String}
use mathlib.Core.Path.{◌≡◌, refl}
use mathlib.Core.Bool.{Bool, true, false}
use mathlib.Core.Option.{Option, none, some}
use mathlib.Core.List.{List, [], ◌∷◌}
use native.Mathlib.Omega.{arith}
use text.Mathlib.Text.{◌==◌ as str_eq}
use text.Mathlib.TextEquality.{eq_iff}
use soroban_gate.Common.Tests.{if◌then◌else◌}

module _ {ℓ} {V : Type ℓ} where
  unfoldable pub get : String → List (String × V) → Option V
  get k [] = none
  get k ((j, v) ∷ m) = if str_eq j k then some v else get k m

  -- The value replaces the one that the key had.
  unfoldable pub insert : String → V → List (String × V) → List (String × V)
  insert k v [] = (k, v) ∷ []
  insert k v ((j, w) ∷ m) = if str_eq j k then (j, v) ∷ m else (j, w) ∷ insert k v m

  pub get-insert :
      (k j : String) (v : V) (m : List (String × V))
      → get j (insert k v m) ≡ (if str_eq k j then some v else get j m)
  unfolding get insert
  get-insert k j v [] = refl
  get-insert k j v ((i, w) ∷ m) =
      ground (arith, eq_iff k j, eq_iff i k, eq_iff i j, get-insert k j v m)

  -- `for key in keys { map.insert(key.clone(), value.clone()) }`.
  unfoldable pub insert_each : List String → V → List (String × V) → List (String × V)
  insert_each [] v m = m
  insert_each (k ∷ ks) v m = insert_each ks v (insert k v m)

abbrev pub listed : String → List String → Bool
listed k [] = false
listed k (j ∷ ks) = if str_eq j k then true else listed k ks

pub get-insert_each {ℓ} :
    {V : Type ℓ} (ks : List String) (k : String) (v : V) (m : List (String × V))
    → get k (insert_each ks v m) ≡ (if listed k ks then some v else get k m)
unfolding insert_each
get-insert_each [] k v m = refl
get-insert_each (j ∷ ks) k v m =
    ground (arith, get-insert_each ks k v (insert j v m), get-insert j k v m)
