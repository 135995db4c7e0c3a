-- ===== src/Auth/Entry.antt =====
-- src/auth/mod.rs, `KeyEntry`.
use soroban_gate.Common.{ℕ, Bool, String}

pub record KeyEntry : Type 0 where
  pub id : String
  pub key_hash : String
  pub tier : String
  pub label : String
  pub is_revoked : Bool
  pub created_at : ℕ
