-- ===== src/External/SerdeJson.antt =====
-- The `serde_json` crate, as far as requests are read with it. Bytes are numbers.
use soroban_gate.Common.{
  ℕ, ◌≡◌, Bool, true, List, Option, none, some, String, if◌then◌else◌, str_eq,
}

pub record SerdeJson : Type 1 where
  pub Value : Type 0
  pub null : Value
  pub from_slice : List ℕ → Option Value
  pub to_vec : Value → Option (List ℕ)
  -- `value.get(key)`; `None` where the value is no object or lacks the key.
  pub get : String → Value → Option Value
  pub as_str : Value → Option String
  pub is_object : Value → Bool
  -- `obj.remove(key)` on the map of an object.
  pub remove : String → Value → Value

-- Removal of a key from an object, that two objects with the same members are equal, and that a
-- parsed value can be printed.
pub record IsLawful (j : SerdeJson) : Type 0 where
  pub is_object-remove : (k : String) (v : j.Value) → j.is_object (j.remove k v) ≡ j.is_object v
  pub get-remove :
      (k q : String) (v : j.Value)
      → j.is_object v ≡ true
      → j.get q (j.remove k v) ≡ (if str_eq k q then none else j.get q v)
  pub object_ext :
      (v w : j.Value)
      → j.is_object v ≡ true
      → j.is_object w ≡ true
      → ((q : String) → j.get q v ≡ j.get q w)
      → v ≡ w
  pub printable : (v : j.Value) → (bytes : List ℕ) × (j.to_vec v ≡ some bytes)
