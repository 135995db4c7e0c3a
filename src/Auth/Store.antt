-- ===== src/Auth/Store.antt =====
-- src/auth/store/sqlite.rs: the key store over an SQLite table. Calls go one after another, behind
-- the mutex of the connection; the salt and the time are arguments.
pub mod Laws
pub mod History
pub mod Refinement
mod Conformance
mod Tests
use soroban_gate.Common.{
  ℕ, ◌/◌, ◌%◌, ◌<◌, Bool, true, false, List, [], ◌∷◌, Option, none, some, String, if◌then◌else◌,
  ◌==◌, ltb,
}
use soroban_gate.Common.Outcome.{Result, ok, err}
use soroban_gate.Common.Text.{cat}
use soroban_gate.Auth.Entry.{KeyEntry}
use soroban_gate.External.Argon2.{Argon2}
use soroban_gate.External.Sqlite.{Sqlite, DbError}

-- The `anyhow::Error`s of the store, by where they come from.
pub data StoreError : Type 0 where
  database : DbError → StoreError
  hashing_failed : StoreError
  invalid_hash : StoreError

abbrev hex_digit : ℕ → String
hex_digit n =
    if ltb n 8
    then (if ltb n 4
        then (if n == 0 then "0" else if n == 1 then "1" else if n == 2 then "2" else "3")
        else (if n == 4 then "4" else if n == 5 then "5" else if n == 6 then "6" else "7"))
    else (if ltb n 12
        then (if n == 8 then "8" else if n == 9 then "9" else if n == 10 then "a" else "b")
        else (if n == 12 then "c" else if n == 13 then "d" else if n == 14 then "e" else "f"))

-- `format!("{:02x}", b)` for each byte, joined.
unfoldable pub hex : List ℕ → String
hex [] = ""
hex (b ∷ bs) = cat (hex_digit (b / 16 % 16)) (cat (hex_digit (b % 16)) (hex bs))

-- `sha256` gives the digest of a text's bytes.
unfoldable pub sha256_id : (String → List ℕ) → String → String
unfolding hex
sha256_id sha256 raw_key = hex (sha256 raw_key)

module _ (db : Sqlite) (argon2 : Argon2) (sha256 : String → List ℕ) where
  unfoldable pub hash_key : String → ℕ → Result String StoreError
  hash_key raw_key salt = elim (argon2.hash_password raw_key salt) [
    | none ↦ err hashing_failed
    | some h ↦ ok h
  ]

  abbrev verified : String → KeyEntry → Result (Option KeyEntry) StoreError
  verified raw_key entry = elim (argon2.parse entry.key_hash) [
    | none ↦ err invalid_hash
    | some h ↦ if argon2.verify_password raw_key h then ok (some entry) else ok none
  ]

  unfoldable pub lookup : db.Connection → String → Result (Option KeyEntry) StoreError
  lookup conn raw_key = elim (db.select_by_id (sha256_id sha256 raw_key) conn) [
    | err e ↦ err (database e)
    | ok o ↦ elim o [ none ↦ ok none | some entry ↦ verified raw_key entry ]
  ]

  abbrev inserted :
      KeyEntry
      → db.Connection × Result (Unit {0}) DbError
      → db.Connection × Result KeyEntry StoreError
  inserted entry (conn, ok _) = (conn, ok entry)
  inserted entry (conn, err e) = (conn, err (database e))

  unfoldable pub create_key :
      db.Connection → String → String → String → ℕ → ℕ → db.Connection × Result KeyEntry StoreError
  unfolding hash_key
  create_key conn raw_key tier label salt now = elim (hash_key raw_key salt) [
    | err e ↦ (conn, err e)
    | ok key_hash ↦
        let entry : KeyEntry = record {
          id = sha256_id sha256 raw_key;
          key_hash = key_hash;
          tier = tier;
          label = label;
          is_revoked = false;
          created_at = now;
        } in
        inserted entry (db.insert entry conn)
  ]

  abbrev affected : db.Connection × Result ℕ DbError → db.Connection × Result Bool StoreError
  affected (conn, ok n) = (conn, ok (ltb 0 n))
  affected (conn, err e) = (conn, err (database e))

  unfoldable pub revoke_key : db.Connection → String → db.Connection × Result Bool StoreError
  revoke_key conn key_id = affected (db.set_revoked key_id conn)

  unfoldable pub list_keys : db.Connection → Result (List KeyEntry) StoreError
  list_keys conn = elim (db.select_all conn) [ err e ↦ err (database e) | ok rows ↦ ok rows ]
