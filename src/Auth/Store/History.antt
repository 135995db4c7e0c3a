-- ===== src/Auth/Store/History.antt =====
-- src/auth/store/sqlite.rs: histories of creations and revocations, and what they say of a key.
use soroban_gate.Common.{
  ℕ, List, [], ◌∷◌, ◌≡◌, refl, Bool, true, false, Option, none, some, String, str_eq, if◌then◌else◌,
}
use soroban_gate.Common.Outcome.{ok, err}
use soroban_gate.Auth.Entry.{KeyEntry}
use soroban_gate.External.Argon2.{Argon2}
use soroban_gate.External.Sqlite.{Sqlite, revoked}
use soroban_gate.Auth.Store.{StoreError, create_key, revoke_key, sha256_id}

pub data Op : Type 0 where
  creates : String → String → String → ℕ → Op
  revokes : String → Op

-- What is known of a key: the text that it was created from, and how.
pub record Known : Type 0 where
  pub text : String
  pub tier : String
  pub label : String
  pub is_revoked : Bool
  pub created_at : ℕ

abbrev pub forbidden : Option Known → Option Known
forbidden none = none
forbidden (some k) = some (record k { is_revoked = true })

abbrev pub first_of : Option Known → Known → Option Known
first_of none k = some k
first_of (some old) k = some old

abbrev pub fresh : String → String → String → ℕ → Known
fresh raw_key tier label now = record {
  text = raw_key;
  tier = tier;
  label = label;
  is_revoked = false;
  created_at = now;
}

module _ (sha256 : String → List ℕ) where
  -- What a history, newest first, says of an id: the first creation counts, and a revocation is for
  -- good.
  unfoldable pub known : String → List Op → Option Known
  known id [] = none
  known id (creates raw_key tier label now ∷ h) =
      let before = known id h in
      if str_eq (sha256_id sha256 raw_key) id
      then first_of before (fresh raw_key tier label now)
      else before
  known id (revokes key_id ∷ h) =
      let before = known id h in if str_eq key_id id then forbidden before else before

module _ (db : Sqlite) (argon2 : Argon2) (sha256 : String → List ℕ) where
  -- Histories of creations and revocations over a table that is empty at first. A creation
  -- succeeds, or fails since the table holds the id; a revocation succeeds, whether or not there
  -- was a key to revoke.
  pub data Ran (first : db.Connection) : List Op → db.Connection → Type 0 where
    start : Ran first [] first
    created :
        {h : List Op} {c : db.Connection} (c' : db.Connection) (raw_key tier label : String)
        (salt now : ℕ) (e : KeyEntry)
        → Ran first h c
        → create_key db argon2 sha256 c raw_key tier label salt now ≡ (c', ok e)
        → Ran first (creates raw_key tier label now ∷ h) c'
    refused :
        {h : List Op} {c : db.Connection} (c' : db.Connection) (raw_key tier label : String)
        (salt now : ℕ) (old : KeyEntry) (x : StoreError)
        → Ran first h c
        → db.select_by_id (sha256_id sha256 raw_key) c ≡ ok (some old)
        → create_key db argon2 sha256 c raw_key tier label salt now ≡ (c', err x)
        → Ran first (creates raw_key tier label now ∷ h) c'
    revoked_key :
        {h : List Op} {c : db.Connection} (c' : db.Connection) (key_id : String) (b : Bool)
        → Ran first h c
        → revoke_key db argon2 sha256 c key_id ≡ (c', ok b)
        → Ran first (revokes key_id ∷ h) c'

  -- The row of a key says what is known of it, and holds a hash of its text.
  pub record Matches (id : String) (e : KeyEntry) (k : Known) : Type 0 where
    pub id_ : e.id ≡ id
    pub tier : e.tier ≡ k.tier
    pub label : e.label ≡ k.label
    pub is_revoked : e.is_revoked ≡ k.is_revoked
    pub created_at : e.created_at ≡ k.created_at
    pub hashed : (salt : ℕ) × (argon2.hash_password k.text salt ≡ some e.key_hash)

  abbrev pub Agrees : String → Option KeyEntry → Option Known → Type 0
  Agrees id none none = Unit
  Agrees id none (some k) = ⊥
  Agrees id (some e) none = ⊥
  Agrees id (some e) (some k) = Matches id e k

  pub Agrees-revoked :
      (id : String) (o : Option KeyEntry) (k : Option Known)
      → Agrees id o k
      → Agrees id (revoked o) (forbidden k)
  Agrees-revoked id none none a = a
  Agrees-revoked id none (some k) a = absurd a
  Agrees-revoked id (some e) none a = absurd a
  Agrees-revoked id (some e) (some k) m = record {
    id_ = m.id_;
    tier = m.tier;
    label = m.label;
    is_revoked = refl;
    created_at = m.created_at;
    hashed = m.hashed;
  }

  pub Agrees-first_of :
      (id : String) (e : KeyEntry) (k : Option Known) (new : Known)
      → Agrees id (some e) k
      → first_of k new ≡ k
  Agrees-first_of id e none new a = absurd a
  Agrees-first_of id e (some k) new a = refl

  pub Agrees-none : (id : String) (k : Option Known) → Agrees id none k → k ≡ none
  Agrees-none id none a = refl
  Agrees-none id (some k) a = absurd a
