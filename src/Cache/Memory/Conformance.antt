-- ===== src/Cache/Memory/Conformance.antt =====
-- src/cache/memory.rs, the tests at its end, run on the model over a cache that drops nothing of its
-- own accord. The first call is at time 0; a sleep moves the time on.
use soroban_gate.Common.{
  ℕ, ◌*◌, ◌≡◌, refl, Bool, true, false, not, ◌&&◌, List, [], ◌∷◌, Option, none, some, ◌==◌,
}
use Prim.Native.Char.{code}
use Prim.Native.String.{String}
use soroban_gate.Cache.Memory
use soroban_gate.Cache.Memory.{MemoryCache, hash_to_u64, from_ne_bytes, from_le_bytes}
use soroban_gate.External.Target.{Endian, little, big}
use soroban_gate.External.Instances.{full_moka}

abbrev secs : ℕ → ℕ
secs n = n * 1_000_000_000

abbrev millis : ℕ → ℕ
millis n = n * 1_000_000

-- A byte string of ASCII, `b"…"`.
abbrev b : String → List ℕ
b String.[] = []
b (String.◌∷◌ c s) = code c ∷ b s

abbrev is_some : Option (List ℕ) → Bool
is_some none = false
is_some (some bytes) = true

abbrev same_bytes : List ℕ → List ℕ → Bool
same_bytes [] [] = true
same_bytes (a ∷ as_) (b ∷ bs) = a == b && same_bytes as_ bs
same_bytes _ _ = false

abbrev is_value : Option (List ℕ) → List ℕ → Bool
is_value none value = false
is_value (some bytes) value = same_bytes bytes value

abbrev test_cache : MemoryCache full_moka
test_cache = Memory.new full_moka 64

abbrev get : MemoryCache full_moka → List ℕ → ℕ → MemoryCache full_moka × Option (List ℕ)
get cache key now = Memory.get full_moka cache key now

abbrev set : MemoryCache full_moka → List ℕ → List ℕ → ℕ → MemoryCache full_moka
set cache key value ttl = Memory.after cache (Memory.set full_moka cache key value ttl 0)

unfoldable test_cache_hit : Bool
test_cache_hit =
    let cache = set test_cache (b "test-key") (b "test-value") (secs 60) in
    is_value (get cache (b "test-key") 0).1 (b "test-value")

unfoldable test_cache_miss : Bool
test_cache_miss = not (is_some (get test_cache (b "nonexistent") 0).1)

unfoldable test_cache_delete : Bool
test_cache_delete =
    let cache = set test_cache (b "delete-key") (b "value") (secs 60) in
    let (without, there) = Memory.delete full_moka cache (b "delete-key") in
    there && not (is_some (get without (b "delete-key") 0).1)

unfoldable test_cache_expiry : Bool
test_cache_expiry =
    let cache = set test_cache (b "expire-key") (b "value") (millis 10) in
    let (used, found) = get cache (b "expire-key") 0 in
    is_some found && not (is_some (get used (b "expire-key") (millis 20)).1)

unfoldable test_cache_flush : Bool
test_cache_flush =
    let one = set test_cache (b "k1") (b "v1") (secs 60) in
    let two = set one (b "k2") (b "v2") (secs 60) in
    let (used, first) = get two (b "k1") 0 in
    let (used_again, second) = get used (b "k2") 0 in
    let flushed = Memory.flush full_moka used_again in
    let (missed, third) = get flushed (b "k1") 0 in
    is_some first
    && is_some second
    && not (is_some third)
    && not (is_some (get missed (b "k2") 0).1)

unfoldable test_cache_stats : Bool
test_cache_stats =
    let before = Memory.stats full_moka test_cache in
    let missed = (get (get test_cache (b "miss1") 0).0 (b "miss2") 0).0 in
    let hit = (get (set missed (b "hit-key") (b "val") (secs 60)) (b "hit-key") 0).0 in
    let after = Memory.stats full_moka hit in
    before.hit_count == 0 && before.miss_count == 0 && after.hit_count == 1 && after.miss_count == 2

unfoldable test_cache_different_ttls : Bool
test_cache_different_ttls =
    let one = set test_cache (b "short") (b "v") (millis 5) in
    let two = set one (b "long") (b "v") (secs 60) in
    let (used, first) = get two (b "short") 0 in
    let (used_again, second) = get used (b "long") 0 in
    let (missed, third) = get used_again (b "short") (millis 10) in
    is_some first
    && is_some second
    && not (is_some third)
    && is_some (get missed (b "long") (millis 10)).1

unfoldable test_hash_to_u64_deterministic : Endian → Bool
test_hash_to_u64_deterministic endian =
    hash_to_u64 endian (b "hello-world") == hash_to_u64 endian (b "hello-world")

unfoldable test_hash_to_u64_different_keys : Endian → Bool
test_hash_to_u64_different_keys endian =
    not (hash_to_u64 endian (b "key-a") == hash_to_u64 endian (b "key-b"))

test_cache_hit_passes : test_cache_hit ≡ true
unfolding test_cache_hit Memory.new Memory.get Memory.set Memory.delete Memory.flush Memory.stats
    hash_to_u64 from_ne_bytes from_le_bytes
test_cache_hit_passes = refl

test_cache_miss_passes : test_cache_miss ≡ true
unfolding test_cache_miss Memory.new Memory.get Memory.set Memory.delete Memory.flush Memory.stats
    hash_to_u64 from_ne_bytes from_le_bytes
test_cache_miss_passes = refl

test_cache_delete_passes : test_cache_delete ≡ true
unfolding test_cache_delete Memory.new Memory.get Memory.set Memory.delete Memory.flush Memory.stats
    hash_to_u64 from_ne_bytes from_le_bytes
test_cache_delete_passes = refl

test_cache_expiry_passes : test_cache_expiry ≡ true
unfolding test_cache_expiry Memory.new Memory.get Memory.set Memory.delete Memory.flush Memory.stats
    hash_to_u64 from_ne_bytes from_le_bytes
test_cache_expiry_passes = refl

test_cache_flush_passes : test_cache_flush ≡ true
unfolding test_cache_flush Memory.new Memory.get Memory.set Memory.delete Memory.flush Memory.stats
    hash_to_u64 from_ne_bytes from_le_bytes
test_cache_flush_passes = refl

test_cache_stats_passes : test_cache_stats ≡ true
unfolding test_cache_stats Memory.new Memory.get Memory.set Memory.delete Memory.flush Memory.stats
    hash_to_u64 from_ne_bytes from_le_bytes
test_cache_stats_passes = refl

test_cache_different_ttls_passes : test_cache_different_ttls ≡ true
unfolding test_cache_different_ttls Memory.new Memory.get Memory.set Memory.delete Memory.flush
    Memory.stats hash_to_u64 from_ne_bytes from_le_bytes
test_cache_different_ttls_passes = refl

test_hash_to_u64_deterministic_passes :
    (endian : Endian) → test_hash_to_u64_deterministic endian ≡ true
unfolding test_hash_to_u64_deterministic Memory.new Memory.get Memory.set Memory.delete Memory.flush
    Memory.stats hash_to_u64 from_ne_bytes from_le_bytes
test_hash_to_u64_deterministic_passes little = refl
test_hash_to_u64_deterministic_passes big = refl

test_hash_to_u64_different_keys_passes :
    (endian : Endian) → test_hash_to_u64_different_keys endian ≡ true
unfolding test_hash_to_u64_different_keys Memory.new Memory.get Memory.set Memory.delete
    Memory.flush Memory.stats hash_to_u64 from_ne_bytes from_le_bytes
test_hash_to_u64_different_keys_passes little = refl
test_hash_to_u64_different_keys_passes big = refl
