-- ===== src/External/Sqlite.antt =====
-- The `rusqlite` crate, as the four statements that the key store sends: rows are key entries, and
-- `id` is the primary key of the table.
use soroban_gate.Common.{ℕ, ◌≡◌, true, Option, none, some, List, String, if◌then◌else◌, str_eq}
use soroban_gate.Common.Outcome.{Result, ok, err}
use soroban_gate.Auth.Entry.{KeyEntry}

pub data DbError : Type 0 where
  db_error : String → DbError

abbrev pub revoked : Option KeyEntry → Option KeyEntry
revoked none = none
revoked (some e) = some (record e { is_revoked = true })

abbrev pub rows_of : Option KeyEntry → ℕ
rows_of none = 0
rows_of (some e) = 1

pub record Sqlite : Type 1 where
  pub Connection : Type 0
  -- `SELECT … WHERE id = ?1`, the first row.
  pub select_by_id : String → Connection → Result (Option KeyEntry) DbError
  -- `INSERT INTO api_keys …`.
  pub insert : KeyEntry → Connection → Connection × Result (Unit {0}) DbError
  -- `UPDATE api_keys SET is_revoked = 1 WHERE id = ?1`, the number of rows that it changed.
  pub set_revoked : String → Connection → Connection × Result ℕ DbError
  -- `SELECT … ORDER BY created_at DESC`.
  pub select_all : Connection → Result (List KeyEntry) DbError

-- What a connection holds under a key, where the table can be read.
pub record IsLawful (s : Sqlite) : Type 0 where
  pub select-insert :
      (e : KeyEntry) (id : String) (c c' : s.Connection) (o : Option KeyEntry)
      → s.insert e c ≡ (c', ok tt)
      → s.select_by_id id c ≡ ok o
      → s.select_by_id id c' ≡ ok (if str_eq e.id id then some e else o)
  pub insert_taken :
      (e old : KeyEntry) (c : s.Connection)
      → s.select_by_id e.id c ≡ ok (some old)
      → (x : DbError) × (s.insert e c ≡ (c, err x))
  pub select-set_revoked :
      (key id : String) (n : ℕ) (c c' : s.Connection) (o : Option KeyEntry)
      → s.set_revoked key c ≡ (c', ok n)
      → s.select_by_id id c ≡ ok o
      → s.select_by_id id c' ≡ ok (if str_eq key id then revoked o else o)
  pub set_revoked_rows :
      (key : String) (n : ℕ) (c c' : s.Connection) (o : Option KeyEntry)
      → s.set_revoked key c ≡ (c', ok n)
      → s.select_by_id key c ≡ ok o
      → n ≡ rows_of o
