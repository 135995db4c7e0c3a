-- ===== src/Auth/Store/Tests.antt =====
-- The theorems on src/auth/store/sqlite.rs for a concrete table.
use soroban_gate.Common.{ℕ, ◌≡◌, true, false, List, [], ◌∷◌, Option, none, some, String, refl}
use soroban_gate.Common.Outcome.{ok, err}
use soroban_gate.Auth.Entry.{KeyEntry}
use soroban_gate.Auth.Store.{database, hex, sha256_id, hash_key, lookup, create_key, revoke_key}
use soroban_gate.External.Sqlite.{db_error}
use soroban_gate.Auth.Store.History.{
  Op, creates, revokes, known, Ran, start, created, refused, revoked_key,
}
use soroban_gate.Auth.Store.Refinement.{Answers, lookup-known}
use soroban_gate.External.Instances.{
  plain_argon2, plain_argon2-IsLawful, table_sqlite, table_sqlite-IsLawful,
}

-- A digest of one byte.
abbrev digest : String → List ℕ
digest raw_key = 171 ∷ []

abbrev empty_table : String → Option KeyEntry
empty_table id = none

abbrev made : KeyEntry
made = record {
  id = "ab";
  key_hash = "sk_1";
  tier = "pro";
  label = "ci";
  is_revoked = false;
  created_at = 9;
}

abbrev made_table : String → Option KeyEntry
made_table = (table_sqlite.insert made empty_table).0

abbrev revoked_table : String → Option KeyEntry
revoked_table = (table_sqlite.set_revoked "ab" made_table).0

digest_id : sha256_id digest "sk_1" ≡ "ab"
unfolding sha256_id hex
digest_id = refl

created_it :
    create_key table_sqlite plain_argon2 digest empty_table "sk_1" "pro" "ci" 5 9
    ≡ (made_table, ok made)
unfolding create_key hash_key sha256_id hex
created_it = refl

taken : table_sqlite.select_by_id (sha256_id digest "sk_1") made_table ≡ ok (some made)
unfolding sha256_id hex
taken = refl

revoked_it :
    revoke_key table_sqlite plain_argon2 digest made_table (sha256_id digest "sk_1")
    ≡ (revoked_table, ok true)
unfolding revoke_key sha256_id hex
revoked_it = refl

-- The key is created, a second creation is refused, and the key is revoked.
abbrev history : List Op
history =
    revokes (sha256_id digest "sk_1")
    ∷ creates "sk_1" "free" "" 10
    ∷ creates "sk_1" "pro" "ci" 9
    ∷ []

nothing_yet : (id : String) → table_sqlite.select_by_id id empty_table ≡ ok none
nothing_yet id = refl

refused_again :
    create_key table_sqlite plain_argon2 digest made_table "sk_1" "free" "" 6 10
    ≡ (made_table, err (database (db_error "UNIQUE constraint failed")))
unfolding create_key hash_key sha256_id hex
refused_again = refl

history-Ran : Ran table_sqlite plain_argon2 digest empty_table history revoked_table
history-Ran =
    revoked_key revoked_table (sha256_id digest "sk_1") true
      (refused made_table "sk_1" "free" "" 6 10 made
        (database (db_error "UNIQUE constraint failed"))
        (created made_table "sk_1" "pro" "ci" 5 9 made start created_it) taken refused_again)
      revoked_it

lookup-known_example :
    Answers table_sqlite plain_argon2 digest table_sqlite-IsLawful plain_argon2-IsLawful "sk_1"
      (known digest (sha256_id digest "sk_1") history)
      (lookup table_sqlite plain_argon2 digest revoked_table "sk_1")
lookup-known_example =
    lookup-known table_sqlite plain_argon2 digest table_sqlite-IsLawful plain_argon2-IsLawful
      empty_table revoked_table history "sk_1" nothing_yet history-Ran
