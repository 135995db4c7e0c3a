-- ===== src/Cache/Memory/Tests.antt =====
-- The theorems on src/cache/memory.rs at concrete histories.
use soroban_gate.Common.{ℕ, ◌+◌, ◌<◌, ◌≡◌, ◌↔◌, List, [], ◌∷◌, some, refl, arith, take}
use soroban_gate.External.Target.{little, big}
use soroban_gate.Cache.Memory.{
  CachedValue, hash_to_u64, from_ne_bytes, from_le_bytes, new, get, set, flush, stats,
}
use soroban_gate.Cache.Memory.Hash.{AreBytes, hash_to_u64_iff}
use soroban_gate.Cache.Memory.History.{
  Op, gets, sets, flushes, maintains, run, step, latest, gets_since_flush, get-latest, stats-run,
}
use soroban_gate.External.Instances.{full_moka, full_moka-IsSound}

abbrev key : List ℕ
key = 1 ∷ 2 ∷ 3 ∷ 4 ∷ 5 ∷ 6 ∷ 7 ∷ 8 ∷ 9 ∷ []

-- It differs from the key in its ninth byte only.
abbrev other : List ℕ
other = 1 ∷ 2 ∷ 3 ∷ 4 ∷ 5 ∷ 6 ∷ 7 ∷ 8 ∷ 200 ∷ []

key-AreBytes : AreBytes key
key-AreBytes = ground arith

other-AreBytes : AreBytes other
other-AreBytes = ground arith

hash_to_u64_iff_example :
    (hash_to_u64 big key ≡ hash_to_u64 big other) ↔ (take 8 key ≡ take 8 other)
hash_to_u64_iff_example =
    hash_to_u64_iff big key other key-AreBytes other-AreBytes (omega arith) (omega arith)

abbrev history : List Op
history = maintains ∷ gets key 15 ∷ sets key (42 ∷ []) 10 11 ∷ flushes ∷ gets key 3 ∷ []

history-hit : (get full_moka (run full_moka 512 history) key 16).1 ≡ some (42 ∷ [])
unfolding get set flush run step new hash_to_u64 from_ne_bytes from_le_bytes
history-hit = refl

get-latest_example :
    (v : CachedValue) × (latest little (hash_to_u64 little key) history ≡ some v)
    × (42 ∷ [] ≡ v.bytes)
    × (16 < v.expires_at)
get-latest_example = get-latest full_moka 512 history key (42 ∷ []) 16 full_moka-IsSound history-hit

stats-run_example :
    ((stats full_moka (run full_moka 512 history)).hit_count
        + (stats full_moka (run full_moka 512 history)).miss_count
      ≡ gets_since_flush history)
    × ((stats full_moka (run full_moka 512 history)).eviction_count ≡ 0)
    × ((stats full_moka (run full_moka 512 history)).size
        ≡ full_moka.entry_count (run full_moka 512 history).cache)
stats-run_example = stats-run full_moka 512 history (omega arith)
