-- ===== src/Auth/Store/Refinement.antt =====
-- src/auth/store/sqlite.rs: lookups after any history of creations and revocations.
use soroban_gate.Common.{
  ℕ, List, ◌∷◌, ◌≡◌, ◌∙◌, ap, sym, refl, subst, Bool, false, Option, none, some, String, str_eq,
  str_eq_iff, Bool-cases, Option-cases, inl, inr, arith,
}
use soroban_gate.Common.Outcome.{Result, ok, err}
use soroban_gate.Auth.Entry.{KeyEntry}
use soroban_gate.External.Argon2
use soroban_gate.External.Argon2.{Argon2}
use soroban_gate.External.Sqlite
use soroban_gate.External.Sqlite.{Sqlite, DbError, revoked}
use soroban_gate.Auth.Store.{
  StoreError, hash_key, lookup, inserted, create_key, revoke_key, sha256_id,
}
use soroban_gate.Auth.Store.Laws.{inserted-ok, affected-ok, lookup-found, create_key_taken}
use soroban_gate.Auth.Store.History.{
  Op, creates, revokes, Known, fresh, known, Ran, start, created, refused, revoked_key, Matches,
  Agrees, Agrees-revoked, Agrees-none, Agrees-first_of,
}

module _ (db : Sqlite) (argon2 : Argon2) (sha256 : String → List ℕ) where
  abbrev Holds : List Op → db.Connection → Type 0
  Holds h c =
      (id : String)
      → (o : Option KeyEntry) × (db.select_by_id id c ≡ ok o)
        × Agrees db argon2 sha256 id o (known sha256 id h)

  abbrev row : String → String → String → ℕ → String → KeyEntry
  row raw_key tier label now key_hash = record {
    id = sha256_id sha256 raw_key;
    key_hash = key_hash;
    tier = tier;
    label = label;
    is_revoked = false;
    created_at = now;
  }

  create_key-ok :
      (c c' : db.Connection) (raw_key tier label : String) (salt now : ℕ) (e : KeyEntry)
      → create_key db argon2 sha256 c raw_key tier label salt now ≡ (c', ok e)
      → (k : String) × (argon2.hash_password raw_key salt ≡ some k)
        × (db.insert (row raw_key tier label now k) c ≡ (c', ok tt))
  unfolding create_key hash_key
  create_key-ok c c' raw_key tier label salt now e h =
      elim (Option-cases (argon2.hash_password raw_key salt)) [
        | inl m ↦ ground (arith, m, h)
        | inr (k, m) ↦
            let entry = row raw_key tier label now k in
            let h' : inserted db argon2 sha256 entry (db.insert entry c) ≡ (c', ok e) =
              ground (arith, m, h) in
            (k, m, (inserted-ok db argon2 sha256 entry e (db.insert entry c) c' h').0)
      ]

  module _ (db_lawful : Sqlite.IsLawful db) (argon2_lawful : Argon2.IsLawful argon2) where
    free_before :
        (c c' : db.Connection) (e : KeyEntry) (o : Option KeyEntry)
        → db.insert e c ≡ (c', ok tt)
        → db.select_by_id e.id c ≡ ok o
        → o ≡ none
    free_before c c' e o r sel = elim (Option-cases o) [
      | inl free ↦ free
      | inr (old, taken) ↦
          let (x, failed) = db_lawful.insert_taken e old c (sel ∙ ap ok taken) in
          ground (arith, sym failed ∙ r)
    ]

    Holds-created :
        (h : List Op) (c c' : db.Connection) (raw_key tier label : String) (salt now : ℕ)
        (e : KeyEntry)
        → Holds h c
        → create_key db argon2 sha256 c raw_key tier label salt now ≡ (c', ok e)
        → Holds (creates raw_key tier label now ∷ h) c'
    unfolding known
    Holds-created h c c' raw_key tier label salt now e held done id =
        let (k, hashed, r) = create_key-ok c c' raw_key tier label salt now e done in
        let entry = row raw_key tier label now k in
        let (o, sel, agrees) = held id in
        let after = db_lawful.select-insert entry id c c' o r sel in
        elim (Bool-cases (str_eq (sha256_id sha256 raw_key) id)) [
          | inl mine ↦
              let named = (str_eq_iff (sha256_id sha256 raw_key) id).0 mine in
              let free =
                free_before c c' entry o r
                  (subst (λ i. db.select_by_id i c ≡ ok o) (sym named) sel) in
              let before =
                Agrees-none db argon2 sha256 id (known sha256 id h)
                  (subst (λ x. Agrees db argon2 sha256 id x (known sha256 id h)) free agrees) in
              let new : known sha256 id (creates raw_key tier label now ∷ h)
                  ≡ some (fresh raw_key tier label now) =
                ground (arith, mine, before) in
              (
                some entry,
                after ∙ ap ok (ground (arith, mine)),
                subst (Agrees db argon2 sha256 id (some entry)) (sym new) (record {
                  id_ = named;
                  tier = refl;
                  label = refl;
                  is_revoked = refl;
                  created_at = refl;
                  hashed = (salt, hashed);
                }),
              )
          | inr others ↦ (
            o,
            after ∙ ap ok (ground (arith, others)),
            subst (Agrees db argon2 sha256 id o) (sym (ground (arith, others))) agrees,
          )
        ]

    Holds-refused :
        (h : List Op) (c c' : db.Connection) (raw_key tier label : String) (salt now : ℕ)
        (old : KeyEntry) (x : StoreError)
        → Holds h c
        → db.select_by_id (sha256_id sha256 raw_key) c ≡ ok (some old)
        → create_key db argon2 sha256 c raw_key tier label salt now ≡ (c', err x)
        → Holds (creates raw_key tier label now ∷ h) c'
    unfolding known
    Holds-refused h c c' raw_key tier label salt now old x held taken failed id =
        let (y, unchanged) =
          create_key_taken db argon2 sha256 db_lawful argon2_lawful c old raw_key tier label salt
            now taken in
        let same : c ≡ c' = ground (arith, sym unchanged ∙ failed) in
        let (o, sel, agrees) = held id in
        (o, subst (λ x. db.select_by_id id x ≡ ok o) same sel, kept o sel agrees)
      where
        kept :
            (o : Option KeyEntry)
            → db.select_by_id id c ≡ ok o
            → Agrees db argon2 sha256 id o (known sha256 id h)
            → Agrees db argon2 sha256 id o (known sha256 id (creates raw_key tier label now ∷ h))
        kept o sel agrees = elim (Bool-cases (str_eq (sha256_id sha256 raw_key) id)) [
          | inl mine ↦
              let named = (str_eq_iff (sha256_id sha256 raw_key) id).0 mine in
              let held_old : o ≡ some old =
                ground
                  (arith, sym sel ∙ subst (λ i. db.select_by_id i c ≡ ok (some old)) named taken) in
              let stays =
                Agrees-first_of db argon2 sha256 id old (known sha256 id h)
                  (fresh raw_key tier label now)
                  (subst (λ x. Agrees db argon2 sha256 id x (known sha256 id h)) held_old agrees) in
              subst (Agrees db argon2 sha256 id o) (sym (ground (arith, mine, stays))) agrees
          | inr others ↦ subst (Agrees db argon2 sha256 id o) (sym (ground (arith, others))) agrees
        ]

    Holds-revoked :
        (h : List Op) (c c' : db.Connection) (key_id : String) (b : Bool)
        → Holds h c
        → revoke_key db argon2 sha256 c key_id ≡ (c', ok b)
        → Holds (revokes key_id ∷ h) c'
    unfolding known revoke_key
    Holds-revoked h c c' key_id b held done id =
        let (n, r, counted) = affected-ok db argon2 sha256 (db.set_revoked key_id c) c' b done in
        let (o, sel, agrees) = held id in
        let after = db_lawful.select-set_revoked key_id id n c c' o r sel in
        elim (Bool-cases (str_eq key_id id)) [
          | inl mine ↦ (
            revoked o,
            after ∙ ap ok (ground (arith, mine)),
            subst (Agrees db argon2 sha256 id (revoked o)) (sym (ground (arith, mine)))
                (Agrees-revoked db argon2 sha256 id o (known sha256 id h) agrees),
          )
          | inr others ↦ (
            o,
            after ∙ ap ok (ground (arith, others)),
            subst (Agrees db argon2 sha256 id o) (sym (ground (arith, others))) agrees,
          )
        ]

    Ran-Holds :
        (first c : db.Connection) (h : List Op)
        → ((id : String) → db.select_by_id id first ≡ ok none)
        → Ran db argon2 sha256 first h c
        → Holds h c
    unfolding known
    Ran-Holds first c h empty start = λ id. (none, empty id, tt)
    Ran-Holds first c h empty (created {h = h'} {c = b} c' raw_key tier label salt now e ran done) =
        Holds-created h' b c' raw_key tier label salt now e (Ran-Holds first b h' empty ran) done
    Ran-Holds first c h empty
          (refused {h = h'} {c = b} c' raw_key tier label salt now old x ran taken failed) =
        Holds-refused h' b c' raw_key tier label salt now old x (Ran-Holds first b h' empty ran)
          taken failed
    Ran-Holds first c h empty (revoked_key {h = h'} {c = b} c' key_id n ran done) =
        Holds-revoked h' b c' key_id n (Ran-Holds first b h' empty ran) done

    -- What `lookup` answers for a text of which so much is known.
    abbrev pub Answers : String → Option Known → Result (Option KeyEntry) StoreError → Type 0
    Answers raw_key none r = r ≡ ok none
    Answers raw_key (some k) r =
        k.text ≡ raw_key
        → (e : KeyEntry) × (r ≡ ok (some e))
          × Matches db argon2 sha256 (sha256_id sha256 raw_key) e k

    answer :
        (c : db.Connection) (raw_key : String) (o : Option KeyEntry) (k : Option Known)
        → db.select_by_id (sha256_id sha256 raw_key) c ≡ ok o
        → Agrees db argon2 sha256 (sha256_id sha256 raw_key) o k
        → Answers raw_key k (lookup db argon2 sha256 c raw_key)
    unfolding lookup
    answer c raw_key none none sel m = ground (arith, sel)
    answer c raw_key none (some k) sel m = absurd m
    answer c raw_key (some e) none sel m = absurd m
    answer c raw_key (some e) (some k) sel m = λ same.
        let (salt, made) = m.hashed in
        let (p, parsed, passed) =
          argon2_lawful.verify-hash raw_key salt e.key_hash
            (subst (λ t. argon2.hash_password t salt ≡ some e.key_hash) same made) in
        (
          e,
          lookup-found db argon2 sha256 db_lawful argon2_lawful c raw_key e p sel parsed passed,
          m,
        )

    -- After any history of creations and revocations over an empty table, a lookup finds nothing
    -- for a key whose id nobody has created, and otherwise the entry of the first creation of this
    -- id, with its tier, label and time, and marked as revoked exactly if the id was revoked at a
    -- later time; all this where that creation was for the same text, since two texts may have the
    -- same SHA-256 digest.
    pub lookup-known :
        (first c : db.Connection) (h : List Op) (raw_key : String)
        → ((id : String) → db.select_by_id id first ≡ ok none)
        → Ran db argon2 sha256 first h c
        → Answers raw_key
            (known sha256 (sha256_id sha256 raw_key) h)
            (lookup db argon2 sha256 c raw_key)
    lookup-known first c h raw_key empty ran =
        let id = sha256_id sha256 raw_key in
        let (o, sel, agrees) = Ran-Holds first c h empty ran id in
        answer c raw_key o (known sha256 id h) sel agrees
