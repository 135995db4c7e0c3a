-- ===== src/Auth/Store/Laws.antt =====
-- src/auth/store/sqlite.rs: what a created or revoked key does to later lookups.
use soroban_gate.Common.{
  ℕ, List, ◌≡◌, ◌∙◌, ap, sym, subst, Bool, true, false, Option, some, String, str_eq_refl, ltb,
  Bool-cases, Option-cases, inl, inr, arith,
}
use soroban_gate.Common.Outcome.{Result, ok, err, Result-cases}
use soroban_gate.Auth.Entry.{KeyEntry}
use soroban_gate.External.Argon2
use soroban_gate.External.Argon2.{Argon2}
use soroban_gate.External.Sqlite
use soroban_gate.External.Sqlite.{Sqlite, DbError, revoked, rows_of}
use soroban_gate.Auth.Store.{
  StoreError, database, hashing_failed, hash_key, lookup, inserted, create_key, affected,
  revoke_key, sha256_id,
}

module _ (db : Sqlite) (argon2 : Argon2) (sha256 : String → List ℕ) where
  pub inserted-ok :
      (entry e : KeyEntry) (p : db.Connection × Result (Unit {0}) DbError) (c' : db.Connection)
      → inserted db argon2 sha256 entry p ≡ (c', ok e)
      → (p ≡ (c', ok tt)) × (e ≡ entry)
  inserted-ok entry e (c, ok tt) c' h = ground (arith, h)
  inserted-ok entry e (c, err x) c' h = ground (arith, h)

  pub affected-ok :
      (p : db.Connection × Result ℕ DbError) (c' : db.Connection) (b : Bool)
      → affected db argon2 sha256 p ≡ (c', ok b)
      → (n : ℕ) × (p ≡ (c', ok n)) × (b ≡ ltb 0 n)
  affected-ok (c, ok n) c' b h = (n, ground (arith, h), ground (arith, h))
  affected-ok (c, err x) c' b h = ground (arith, h)

module _ (db : Sqlite) (argon2 : Argon2) (sha256 : String → List ℕ) (db_lawful : Sqlite.IsLawful db)
    (argon2_lawful : Argon2.IsLawful argon2) where
  pub lookup-found :
      (c : db.Connection) (raw_key : String) (e : KeyEntry) (p : argon2.PasswordHash)
      → db.select_by_id (sha256_id sha256 raw_key) c ≡ ok (some e)
      → argon2.parse e.key_hash ≡ some p
      → argon2.verify_password raw_key p ≡ true
      → lookup db argon2 sha256 c raw_key ≡ ok (some e)
  unfolding lookup
  lookup-found c raw_key e p found parsed passed = ground (arith, found, parsed, passed)

  lookup-some :
      (c : db.Connection) (raw_key : String) (e : KeyEntry)
      → lookup db argon2 sha256 c raw_key ≡ ok (some e)
      → (db.select_by_id (sha256_id sha256 raw_key) c ≡ ok (some e))
        × (p : argon2.PasswordHash) × (argon2.parse e.key_hash ≡ some p)
        × (argon2.verify_password raw_key p ≡ true)
  unfolding lookup
  lookup-some c raw_key e h = elim (Result-cases (db.select_by_id (sha256_id sha256 raw_key) c)) [
    | inr (x, m) ↦ ground (arith, m, h)
    | inl (o, m) ↦ elim (Option-cases o) [
      | inl n ↦ ground (arith, m, n, h)
      | inr (a, n) ↦ elim (Option-cases (argon2.parse a.key_hash)) [
        | inl q ↦ ground (arith, m, n, q, h)
        | inr (p, q) ↦ elim (Bool-cases (argon2.verify_password raw_key p)) [
          | inr w ↦ ground (arith, m, n, q, w, h)
          | inl w ↦
              let same : a ≡ e = ground (arith, m, n, q, w, h) in
              (ground (arith, m, n, same), p, ground (arith, q, same), w)
        ]
      ]
    ]
  ]

  -- A key that was created over a table that can be read is found by its text afterwards: with
  -- the entry that creation returned, whose tier and label are those asked for, not revoked.
  pub lookup-create_key :
      (c c' : db.Connection) (o : Option KeyEntry) (raw_key tier label : String) (salt now : ℕ)
      (e : KeyEntry)
      → db.select_by_id (sha256_id sha256 raw_key) c ≡ ok o
      → create_key db argon2 sha256 c raw_key tier label salt now ≡ (c', ok e)
      → (lookup db argon2 sha256 c' raw_key ≡ ok (some e))
        × (e.tier ≡ tier)
        × (e.label ≡ label)
        × (e.is_revoked ≡ false)
  unfolding create_key hash_key lookup
  lookup-create_key c c' o raw_key tier label salt now e h_sel h =
      elim (Option-cases (argon2.hash_password raw_key salt)) [
        | inl m ↦ ground (arith, m, h)
        | inr (k, m) ↦
            let entry : KeyEntry = record {
              id = sha256_id sha256 raw_key;
              key_hash = k;
              tier = tier;
              label = label;
              is_revoked = false;
              created_at = now;
            } in
            let h' : inserted db argon2 sha256 entry (db.insert entry c) ≡ (c', ok e) =
              ground (arith, m, h) in
            let (r, q) = inserted-ok db argon2 sha256 entry e (db.insert entry c) c' h' in
            let found = db_lawful.select-insert entry (sha256_id sha256 raw_key) c c' o r h_sel in
            let (p, parsed, passed) = argon2_lawful.verify-hash raw_key salt k m in
            (
              subst (λ a. lookup db argon2 sha256 c' raw_key ≡ ok (some a)) (sym q)
                  (lookup-found c' raw_key entry p
                    (found ∙ ap ok (ground (arith, str_eq_refl entry.id))) parsed passed),
              ap (λ e. e.tier) q,
              ap (λ e. e.label) q,
              ap (λ e. e.is_revoked) q,
            )
      ]

  -- Creating a key whose id the table already holds, revoked or not, fails and leaves the
  -- connection as it was.
  pub create_key_taken :
      (c : db.Connection) (old : KeyEntry) (raw_key tier label : String) (salt now : ℕ)
      → db.select_by_id (sha256_id sha256 raw_key) c ≡ ok (some old)
      → (x : StoreError) × (create_key db argon2 sha256 c raw_key tier label salt now ≡ (c, err x))
  unfolding create_key hash_key
  create_key_taken c old raw_key tier label salt now h =
      elim (Option-cases (argon2.hash_password raw_key salt)) [
        | inl m ↦ (hashing_failed, ground (arith, m))
        | inr (k, m) ↦
            let entry : KeyEntry = record {
              id = sha256_id sha256 raw_key;
              key_hash = k;
              tier = tier;
              label = label;
              is_revoked = false;
              created_at = now;
            } in
            let (x, r) = db_lawful.insert_taken entry old c h in (database x, ground (arith, m, r))
      ]

  -- Revoking the id of a key that a lookup accepts answers true, and the next lookup of that key
  -- returns the same entry marked as revoked.
  pub lookup-revoke_key :
      (c c' : db.Connection) (raw_key : String) (e : KeyEntry) (b : Bool)
      → lookup db argon2 sha256 c raw_key ≡ ok (some e)
      → revoke_key db argon2 sha256 c (sha256_id sha256 raw_key) ≡ (c', ok b)
      → (b ≡ true)
        × (lookup db argon2 sha256 c' raw_key ≡ ok (some (record e { is_revoked = true })))
  unfolding revoke_key lookup
  lookup-revoke_key c c' raw_key e b h h' =
      let (found, p, parsed, passed) = lookup-some c raw_key e h in
      let (n, r, q) =
        affected-ok db argon2 sha256 (db.set_revoked (sha256_id sha256 raw_key) c) c' b h' in
      let k = db_lawful.set_revoked_rows (sha256_id sha256 raw_key) n c c' (some e) r found in
      let after =
        db_lawful.select-set_revoked (sha256_id sha256 raw_key) (sha256_id sha256 raw_key) n c c'
          (some e) r found in
      (
        ground (arith, q, k),
        lookup-found c' raw_key (record e { is_revoked = true }) p
            (after ∙ ap ok (ground (arith, str_eq_refl (sha256_id sha256 raw_key)))) parsed passed,
      )
