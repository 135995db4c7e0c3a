-- ===== src/External/Argon2.antt =====
-- The `argon2` crate: hashing with a salt, reading a stored hash, and verification.
use soroban_gate.Common.{ℕ, ◌≡◌, Bool, true, Option, some, String}

pub record Argon2 : Type 1 where
  pub PasswordHash : Type 0
  -- The result is the printed hash; hashing may fail.
  pub hash_password : String → ℕ → Option String
  -- `PasswordHash::new`.
  pub parse : String → Option PasswordHash
  pub verify_password : String → PasswordHash → Bool

-- A hash that was made can be read, and the password that it was made from passes.
pub record IsLawful (a : Argon2) : Type 0 where
  pub verify-hash :
      (password : String) (salt : ℕ) (h : String)
      → a.hash_password password salt ≡ some h
      → (p : a.PasswordHash) × (a.parse h ≡ some p) × (a.verify_password password p ≡ true)
