-- ===== src/Auth/Store/Conformance.antt =====
-- src/auth/store/sqlite.rs, the tests at its end, run on the model. The table is the list of its
-- rows, the digest of a text the codes of its characters, and all happens at time 0 with salt 0.
use Prim.Native.Char.{code}
use Prim.Native.String.{String}
use soroban_gate.Common.{
  ℕ, ◌≡◌, refl, Bool, true, false, not, ◌&&◌, List, [], ◌∷◌, Option, none, some, ◌==◌, str_eq,
  if◌then◌else◌, length,
}
use soroban_gate.Common.Outcome.{Result, ok, err}
use soroban_gate.Auth.Entry.{KeyEntry}
use soroban_gate.Auth.Store
use soroban_gate.Auth.Store.{StoreError, sha256_id, hex, hash_key}
use soroban_gate.External.Instances.{plain_argon2}
use soroban_gate.External.Sqlite.{Sqlite, DbError, db_error, rows_of}

abbrev row : String → List KeyEntry → Option KeyEntry
row id [] = none
row id (e ∷ es) = if str_eq e.id id then some e else row id es

abbrev add_row :
    KeyEntry → List KeyEntry → Option KeyEntry → List KeyEntry × Result (Unit {0}) DbError
add_row e rows none = (e ∷ rows, ok tt)
add_row e rows (some old) = (rows, err (db_error "UNIQUE constraint failed"))

abbrev revoke_row : String → List KeyEntry → List KeyEntry
revoke_row id [] = []
revoke_row id (e ∷ es) =
    if str_eq e.id id then record e { is_revoked = true } ∷ es else e ∷ revoke_row id es

abbrev rows_sqlite : Sqlite
rows_sqlite = record {
  Connection = List KeyEntry;
  select_by_id = λ id rows. ok (row id rows);
  insert = λ e rows. add_row e rows (row e.id rows);
  set_revoked = λ id rows. (revoke_row id rows, ok (rows_of (row id rows)));
  select_all = λ rows. ok rows;
}

abbrev digest : String → List ℕ
digest String.[] = []
digest (String.◌∷◌ c s) = code c ∷ digest s

-- `SqliteKeyStore::new(":memory:")`.
abbrev setup_db : List KeyEntry
setup_db = []

abbrev created : List KeyEntry → String → String → String → List KeyEntry
created rows key tier label =
    (Store.create_key rows_sqlite plain_argon2 digest rows key tier label 0 0).0

abbrev looked_up : List KeyEntry → String → Result (Option KeyEntry) StoreError
looked_up rows key = Store.lookup rows_sqlite plain_argon2 digest rows key

-- `unwrap()`, `is_some()` and the test of the entry.
abbrev has_entry : Result (Option KeyEntry) StoreError → (KeyEntry → Bool) → Bool
has_entry (ok (some entry)) test = test entry
has_entry _ test = false

abbrev is_absent : Result (Option KeyEntry) StoreError → Bool
is_absent (ok none) = true
is_absent _ = false

abbrev has_length : Result (List KeyEntry) StoreError → ℕ → Bool
has_length (ok keys) n = length keys == n
has_length (err e) n = false

unfoldable test_create_and_lookup : Bool
test_create_and_lookup =
    let key : String = "sk_test_create_lookup" in
    let rows = created setup_db key "premium" "test key" in
    has_entry (looked_up rows key) (λ entry.
      str_eq entry.tier "premium" && str_eq entry.label "test key" && not entry.is_revoked)

unfoldable test_lookup_nonexistent : Bool
test_lookup_nonexistent = is_absent (looked_up setup_db "sk_nonexistent")

unfoldable test_revoked_key_rejected : Bool
test_revoked_key_rejected =
    let key : String = "sk_test_revoked" in
    let rows = created setup_db key "basic" "to revoke" in
    let revoked =
      (Store.revoke_key rows_sqlite plain_argon2 digest rows (sha256_id digest key)).0 in
    has_entry (looked_up revoked key) (λ entry. entry.is_revoked)

unfoldable test_list_keys : Bool
test_list_keys =
    let one = created setup_db "sk_test_list_1" "tier1" "key 1" in
    let two = created one "sk_test_list_2" "tier2" "key 2" in
    has_length (Store.list_keys rows_sqlite plain_argon2 digest two) 2

test_create_and_lookup_passes : test_create_and_lookup ≡ true
unfolding test_create_and_lookup Store.create_key Store.lookup Store.revoke_key Store.list_keys
    hash_key sha256_id hex
test_create_and_lookup_passes = refl

test_lookup_nonexistent_passes : test_lookup_nonexistent ≡ true
unfolding test_lookup_nonexistent Store.create_key Store.lookup Store.revoke_key Store.list_keys
    hash_key sha256_id hex
test_lookup_nonexistent_passes = refl

test_revoked_key_rejected_passes : test_revoked_key_rejected ≡ true
unfolding test_revoked_key_rejected Store.create_key Store.lookup Store.revoke_key Store.list_keys
    hash_key sha256_id hex
test_revoked_key_rejected_passes = refl

test_list_keys_passes : test_list_keys ≡ true
unfolding test_list_keys Store.create_key Store.lookup Store.revoke_key Store.list_keys hash_key
    sha256_id hex
test_list_keys_passes = refl
