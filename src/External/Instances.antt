-- ===== src/External/Instances.antt =====
-- Small concrete stand-ins for the crates, on which the model runs in tests.
pub mod Web
use soroban_gate.Common.{
  ℕ, ◌≡◌, ◌∙◌, sym, ap, refl, fun_ext, Bool, true, false, List, [], ◌∷◌, Option, none, some, String,
  if◌then◌else◌, str_eq, str_eq_refl, ◌==◌, arith,
}
use soroban_gate.Common.Outcome.{Result, ok, err}
use soroban_gate.Auth.Entry.{KeyEntry}
use soroban_gate.Cache.Memory.{CachedValue}
use soroban_gate.External.SerdeJson
use soroban_gate.External.SerdeJson.{SerdeJson}
use soroban_gate.External.Target.{Endian}
use soroban_gate.External.Moka
use soroban_gate.External.Moka.{Moka}
use soroban_gate.External.Argon2
use soroban_gate.External.Argon2.{Argon2}
use soroban_gate.External.Sqlite
use soroban_gate.External.Sqlite.{Sqlite, DbError, db_error, revoked, rows_of}

-- A value is the set of its members' names, and every member is the text "getHealth".
abbrev no_members : String → Bool
no_members q = false

abbrev pub envelope : Bool → String → Bool
envelope with_id q =
    if str_eq q "method" then true else if str_eq q "id" then with_id else str_eq q "jsonrpc"

abbrev parse_bytes : List ℕ → Option (String → Bool)
parse_bytes [] = none
parse_bytes (b ∷ bs) = some (envelope (b == 1))

abbrev pub names_json : SerdeJson
names_json = record {
  Value = String → Bool;
  null = no_members;
  from_slice = parse_bytes;
  to_vec = λ v. some (if v "method" then 7 ∷ 8 ∷ 9 ∷ [] else []);
  get = λ k v. if v k then some no_members else none;
  as_str = λ v. some "getHealth";
  is_object = λ v. true;
  remove = λ k v q. if str_eq k q then false else v q;
}

pub names_json-IsLawful : SerdeJson.IsLawful names_json
names_json-IsLawful = record {
  is_object-remove = λ k v. refl;
  get-remove = λ k q v o. ground arith;
  object_ext = λ v w o p same. fun_ext (λ q. ground (arith, same q));
  printable = λ v. (if v "method" then 7 ∷ 8 ∷ 9 ∷ [] else [], refl);
}

-- It never drops an entry of its own accord.
abbrev pub full_moka : Moka CachedValue
full_moka = record {
  endian = Endian.little;
  Store = ℕ → Option CachedValue;
  build = λ n k. none;
  get = λ k s. s k;
  insert = λ k v s q. if k == q then some v else s q;
  invalidate = λ k s q. if k == q then none else s q;
  invalidate_all = λ s q. none;
  entry_count = λ s. 0;
  maintain = λ s. s;
}

pub full_moka-IsSound : Moka.IsSound full_moka
full_moka-IsSound = record {
  build_empty = λ n k. refl;
  get-insert = λ k q v w s e. ground (arith, e);
  get-invalidate = λ k q w s e. ground (arith, e);
  get-invalidate_all = λ q s. refl;
  get-maintain = λ q w s e. e;
}

-- The hash of a password is the password.
abbrev pub plain_argon2 : Argon2
plain_argon2 = record {
  PasswordHash = String;
  hash_password = λ p salt. some p;
  parse = λ h. some h;
  verify_password = λ p h. str_eq p h;
}

pub plain_argon2-IsLawful : Argon2.IsLawful plain_argon2
plain_argon2-IsLawful = record {
  verify-hash = λ p salt h e. (h, refl, ground (arith, e, str_eq_refl p));
}

abbrev insert_row :
    KeyEntry
    → (String → Option KeyEntry)
    → Option KeyEntry
    → (String → Option KeyEntry) × Result (Unit {0}) DbError
insert_row e c none = (λ id. if str_eq e.id id then some e else c id, ok tt)
insert_row e c (some old) = (c, err (db_error "UNIQUE constraint failed"))

-- A table is the function from ids to rows.
abbrev pub table_sqlite : Sqlite
table_sqlite = record {
  Connection = String → Option KeyEntry;
  select_by_id = λ id c. ok (c id);
  insert = λ e c. insert_row e c (c e.id);
  set_revoked =
      λ key c. (λ id. if str_eq key id then revoked (c id) else c id, ok (rows_of (c key)));
  select_all = λ c. ok [];
}

abbrev ok_db {ℓ} : {A : Type ℓ} → A → Result A DbError
ok_db a = ok a

ok_injective {ℓ} : {A : Type ℓ} (a b : A) → ok_db a ≡ ok_db b → a ≡ b
ok_injective a b e = cc

insert_row-ok :
    (e : KeyEntry) (id : String) (c c' : String → Option KeyEntry) (p : Option KeyEntry)
    → insert_row e c p ≡ (c', ok tt)
    → c' id ≡ (if str_eq e.id id then some e else c id)
insert_row-ok e id c c' none h = sym (ap (λ x. x.0 id) h)
insert_row-ok e id c c' (some old) h = ground (arith, h)

pub table_sqlite-IsLawful : Sqlite.IsLawful table_sqlite
table_sqlite-IsLawful = record {
  select-insert = λ e id c c' o h s. ap ok (
      insert_row-ok e id c c' (c e.id) h
      ∙ ap (λ r. if str_eq e.id id then some e else r) (ok_injective (c id) o s));
  insert_taken = λ e old c h. (
    db_error "UNIQUE constraint failed",
    ap (insert_row e c) (ok_injective (c e.id) (some old) h),
  );
  select-set_revoked = λ key id n c c' o h s. ap ok (
      sym (ap (λ x. x.0 id) h)
      ∙ ap (λ r. if str_eq key id then revoked r else r) (ok_injective (c id) o s));
  set_revoked_rows = λ key n c c' o h s.
      sym (ok_injective (rows_of (c key)) n (ap (λ x. x.1) h))
      ∙ ap rows_of (ok_injective (c key) o s);
}
