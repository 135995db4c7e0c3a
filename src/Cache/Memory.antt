-- ===== src/Cache/Memory.antt =====
-- src/cache/memory.rs: the in-memory cache on top of moka. Instants and lifetimes count
-- nanoseconds, and `now` is the result of `Instant::now`.
pub mod Hash
pub mod History
mod Conformance
mod Tests
use soroban_gate.Common.{
  ℕ, ◌+◌, ◌-◌, ◌*◌, ◌/◌, Bool, true, false, List, [], ◌∷◌, ◌++◌, Option, none, some, length, take,
  replicate, if◌then◌else◌, ltb, ◌%◌,
}
use soroban_gate.Common.Words.{inc_u64, u64_mod}
use soroban_gate.Common.Outcome.{Outcome, returned, panicked}
use soroban_gate.Cache.{CacheStats}
use mathlib.Core.List.{reverse}
use soroban_gate.External.Moka.{Moka}
use soroban_gate.External.Target.{Endian, little, big}

-- The name `data` of the code's field is a reserved word here.
pub record CachedValue : Type 0 where
  pub bytes : List ℕ
  pub expires_at : ℕ

-- The number that a little-endian sequence of bytes stands for.
unfoldable pub from_le_bytes : List ℕ → ℕ
from_le_bytes [] = 0
from_le_bytes (b ∷ bs) = b + 256 * from_le_bytes bs

-- The number that a sequence of bytes stands for on a target of the byte order.
unfoldable pub from_ne_bytes : Endian → List ℕ → ℕ
unfolding from_le_bytes
from_ne_bytes little bytes = from_le_bytes bytes
from_ne_bytes big bytes = from_le_bytes (reverse bytes)

-- The first eight bytes of the key, filled up with zeros.
unfoldable pub hash_to_u64 : Endian → List ℕ → ℕ
unfolding from_ne_bytes
hash_to_u64 endian key =
    let head = take 8 key in from_ne_bytes endian (head ++ replicate (8 - length head) 0)

-- An `Instant` of Unix counts less than 2^63 seconds.
abbrev pub instant_end : ℕ
instant_end = 9_223_372_036_854_775_808 * 1_000_000_000

abbrev pub fits : ℕ → ℕ → Bool
fits ttl now = ltb (now + ttl) instant_end

-- What a shared value is after an operation that may panic before it changes anything.
abbrev pub after {ℓ} : {A : Type ℓ} → A → Outcome A → A
after a panicked = a
after a (returned b) = b

module _ (m : Moka CachedValue) where
  pub record MemoryCache : Type 0 where
    pub cache : m.Store
    pub hit_count : ℕ
    pub miss_count : ℕ
    pub eviction_count : ℕ

  unfoldable pub new : ℕ → MemoryCache
  new max_memory_mb = record {
    cache = m.build (max_memory_mb * 1024 % u64_mod * 1024 % u64_mod / 1024);
    hit_count = 0;
    miss_count = 0;
    eviction_count = 0;
  }

  unfoldable pub get : MemoryCache → List ℕ → ℕ → MemoryCache × Option (List ℕ)
  get c key now =
      let k = hash_to_u64 m.endian key in
      elim (m.get k c.cache) [
        | some entry ↦
            if ltb now entry.expires_at
            then (record c { hit_count = inc_u64 c.hit_count }, some entry.bytes)
            else (
              record c { miss_count = inc_u64 c.miss_count; cache = m.invalidate k c.cache },
              none,
            )
        | none ↦ (record c { miss_count = inc_u64 c.miss_count }, none)
      ]

  -- The sum panics where it is no `Instant`, before the crate is called.
  unfoldable pub set : MemoryCache → List ℕ → List ℕ → ℕ → ℕ → Outcome MemoryCache
  set c key value ttl now =
      if fits ttl now
      then returned (record c {
        cache =
            m.insert (hash_to_u64 m.endian key) (record { bytes = value; expires_at = now + ttl })
              c.cache;
      })
      else panicked

  abbrev is_some {ℓ} : {A : Type ℓ} → Option A → Bool
  is_some none = false
  is_some (some a) = true

  unfoldable pub delete : MemoryCache → List ℕ → MemoryCache × Bool
  delete c key =
      let k = hash_to_u64 m.endian key in
      (record c { cache = m.invalidate k c.cache }, is_some (m.get k c.cache))

  unfoldable pub flush : MemoryCache → MemoryCache
  flush c = record {
    cache = m.invalidate_all c.cache;
    hit_count = 0;
    miss_count = 0;
    eviction_count = 0;
  }

  unfoldable pub stats : MemoryCache → CacheStats
  stats c = record {
    hit_count = c.hit_count;
    miss_count = c.miss_count;
    size = m.entry_count c.cache;
    eviction_count = c.eviction_count;
  }
