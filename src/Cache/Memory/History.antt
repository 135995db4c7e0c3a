-- ===== src/Cache/Memory/History.antt =====
-- src/cache/memory.rs: what the in-memory cache returns, against the history of its operations.
use soroban_gate.Common.{
  ℕ, suc, ◌+◌, ◌≤◌, ◌<◌, ◌≡◌, refl, inl, inr, ◌&&◌, List, [], ◌∷◌, Option, none, some, arith,
  if◌then◌else◌, ◌==◌, length, Option-cases,
}
use soroban_gate.Common.Outcome.{returned}
use soroban_gate.Common.Words.{u64_mod}
use soroban_gate.External.Target.{Endian}
use soroban_gate.External.Moka.{Moka, IsSound}
use soroban_gate.Cache.Memory.{
  CachedValue, MemoryCache, fits, after, hash_to_u64, new, get, set, delete, flush, stats,
}

-- The operations on a cache, and the housekeeping of the crate.
pub data Op : Type 0 where
  gets : List ℕ → ℕ → Op
  sets : List ℕ → List ℕ → ℕ → ℕ → Op
  deletes : List ℕ → Op
  flushes : Op
  maintains : Op

-- What a history, newest first, leaves for a 64-bit key: the value of the last `set` that did
-- not panic, unless a `delete` or a `flush` came after it.
abbrev pub latest : Endian → ℕ → List Op → Option CachedValue
latest endian k [] = none
latest endian k (gets key now ∷ h) = latest endian k h
latest endian k (sets key value ttl now ∷ h) =
    if fits ttl now && hash_to_u64 endian key == k
    then some (record { bytes = value; expires_at = now + ttl })
    else latest endian k h
latest endian k (deletes key ∷ h) = if hash_to_u64 endian key == k then none else latest endian k h
latest endian k (flushes ∷ h) = none
latest endian k (maintains ∷ h) = latest endian k h

-- The `get`s since the last `flush`.
abbrev pub gets_since_flush : List Op → ℕ
gets_since_flush [] = 0
gets_since_flush (gets key now ∷ h) = suc (gets_since_flush h)
gets_since_flush (sets key value ttl now ∷ h) = gets_since_flush h
gets_since_flush (deletes key ∷ h) = gets_since_flush h
gets_since_flush (flushes ∷ h) = 0
gets_since_flush (maintains ∷ h) = gets_since_flush h

module _ (m : Moka CachedValue) where
  unfoldable pub step : MemoryCache m → Op → MemoryCache m
  step c (gets key now) = (get m c key now).0
  step c (sets key value ttl now) = after c (set m c key value ttl now)
  step c (deletes key) = (delete m c key).0
  step c flushes = flush m c
  step c maintains = record c { cache = m.maintain c.cache }

  -- The cache after a history, newest first.
  unfoldable pub run : ℕ → List Op → MemoryCache m
  run mb [] = new m mb
  run mb (o ∷ h) = step (run mb h) o

  -- Whatever the crate holds is the latest value of the history.
  abbrev IsRecent : List Op → MemoryCache m → Type 0
  IsRecent h c = (k : ℕ) (v : CachedValue) → m.get k c.cache ≡ some v → latest m.endian k h ≡ some v

  module _ (sound : IsSound m) where
    step-IsRecent :
        (h : List Op) (c : MemoryCache m) (o : Op) → IsRecent h c → IsRecent (o ∷ h) (step c o)
    unfolding step get set delete flush
    step-IsRecent h c (gets key now) r k v e =
        ground (arith, sound.get-invalidate (hash_to_u64 m.endian key) k v c.cache, r k v)
    step-IsRecent h c (sets key value ttl now) r k v e = ground (
      arith,
      sound.get-insert (hash_to_u64 m.endian key) k
          (record { bytes = value; expires_at = now + ttl }) v c.cache,
      r k v,
    )
    step-IsRecent h c (deletes key) r k v e =
        ground (arith, sound.get-invalidate (hash_to_u64 m.endian key) k v c.cache, r k v)
    step-IsRecent h c flushes r k v e = cc (sound.get-invalidate_all k c.cache)
    step-IsRecent h c maintains r k v e = r k v (sound.get-maintain k v c.cache e)

    run-IsRecent : (mb : ℕ) (h : List Op) → IsRecent h (run mb h)
    unfolding run new
    run-IsRecent mb [] k v e = cc (sound.build_empty _ k)
    run-IsRecent mb (o ∷ h) k v e = step-IsRecent h (run mb h) o (run-IsRecent mb h) k v e

  -- A counter of each kind of lookup adds up to the lookups, and evictions are never counted.
  record Counts (h : List Op) (c : MemoryCache m) : Type 0 where
    lookups : c.hit_count + c.miss_count ≡ gets_since_flush h
    evictions : c.eviction_count ≡ 0

  gets_since_flush-le : (h : List Op) → gets_since_flush h ≤ length h
  gets_since_flush-le [] = omega arith
  gets_since_flush-le (gets key now ∷ h) = omega (arith, gets_since_flush-le h)
  gets_since_flush-le (sets key value ttl now ∷ h) = omega (arith, gets_since_flush-le h)
  gets_since_flush-le (deletes key ∷ h) = omega (arith, gets_since_flush-le h)
  gets_since_flush-le (flushes ∷ h) = omega arith
  gets_since_flush-le (maintains ∷ h) = omega (arith, gets_since_flush-le h)

  step-Counts :
      (h : List Op) (c : MemoryCache m) (o : Op)
      → suc (length h) < u64_mod
      → Counts h c
      → Counts (o ∷ h) (step c o)
  unfolding step get set delete flush
  step-Counts h c (gets key now) room v = ground (arith, gets_since_flush-le h)
  step-Counts h c (sets key value ttl now) room v = ground arith
  step-Counts h c (deletes key) room v = ground arith
  step-Counts h c flushes room v = ground arith
  step-Counts h c maintains room v = ground arith

  run-Counts : (mb : ℕ) (h : List Op) → length h < u64_mod → Counts h (run mb h)
  unfolding run new
  run-Counts mb [] room = ground arith
  run-Counts mb (o ∷ h) room = step-Counts h (run mb h) o room (run-Counts mb h (omega arith))

-- After any history of operations, and whatever the crate has dropped meanwhile, a lookup returns
-- nothing or the value of the last `set`, of those whose key has the same 64 bits and that did not
-- panic because their time plus their lifetime was out of range; then nothing deleted or
-- flushed it since, and its lifetime is not over.
pub get-latest :
    (m : Moka CachedValue) (mb : ℕ) (h : List Op) (key bytes : List ℕ) (now : ℕ)
    → IsSound m
    → (get m (run m mb h) key now).1 ≡ some bytes
    → (v : CachedValue) × (latest m.endian (hash_to_u64 m.endian key) h ≡ some v)
      × (bytes ≡ v.bytes)
      × (now < v.expires_at)
unfolding get
get-latest m mb h key bytes now sound e =
    elim (Option-cases (m.get (hash_to_u64 m.endian key) (run m mb h).cache)) [
      | inl missed ↦ absurd (cc)
      | inr (v, held) ↦ (
        v,
        run-IsRecent m sound mb h (hash_to_u64 m.endian key) v held,
        ground (arith, held),
        ground (arith, held),
      )
    ]

-- After fewer than 2^64 operations the hits and misses of the statistics add up to the lookups
-- since the last flush, and the evictions are zero, whatever the crate has evicted.
pub stats-run :
    (m : Moka CachedValue) (mb : ℕ) (h : List Op)
    → length h < u64_mod
    → let s = stats m (run m mb h) in
      (s.hit_count + s.miss_count ≡ gets_since_flush h)
      × (s.eviction_count ≡ 0)
      × (s.size ≡ m.entry_count (run m mb h).cache)
unfolding stats
stats-run m mb h room = let v = run-Counts m mb h room in (v.lookups, v.evictions, refl)

-- A value that was stored under one key, and that the crate holds, is returned for every key with
-- the same first 64 bits until it expires, though the keys may differ.
pub get-set_collision :
    (m : Moka CachedValue) (c c' : MemoryCache m) (key other value : List ℕ) (ttl now later : ℕ)
    → set m c key value ttl now ≡ returned c'
    → hash_to_u64 m.endian key ≡ hash_to_u64 m.endian other
    → m.get (hash_to_u64 m.endian key) c'.cache
      ≡ some (record { bytes = value; expires_at = now + ttl })
    → later < now + ttl
    → (get m c' other later).1 ≡ some value
unfolding get
get-set_collision m c c' key other value ttl now later stored same held fresh = ground arith
