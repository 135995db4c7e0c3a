-- ===== src/Cache/Memory/Hash.antt =====
-- src/cache/memory.rs: when two keys of the in-memory cache have the same 64-bit key.
use soroban_gate.Common.{
  ℕ, zero, suc, ◌≤◌, ◌<◌, ◌≡◌, refl, ap, subst, ◌++◌, ◌∙◌, ◌↔◌, List, [], ◌∷◌, arith, All, length,
  length-append, take,
}
use mathlib.Core.List.{append-nil, reverse, reverse-cons, reverse-reverse}
use mathlib.Core.Path.{sym}
use soroban_gate.External.Target.{Endian, little, big}
use soroban_gate.Cache.Memory.{from_le_bytes, from_ne_bytes, hash_to_u64}

abbrev pub AreBytes : List ℕ → Type 0
AreBytes = All (λ b. b < 256)

from_le_bytes_inj :
    (xs ys : List ℕ)
    → AreBytes xs
    → AreBytes ys
    → length xs ≡ length ys
    → from_le_bytes xs ≡ from_le_bytes ys
    → xs ≡ ys
unfolding from_le_bytes
from_le_bytes_inj [] [] hx hy l e = refl
from_le_bytes_inj [] (y ∷ ys) hx hy l e = absurd (omega arith)
from_le_bytes_inj (x ∷ xs) [] hx hy l e = absurd (omega arith)
from_le_bytes_inj (x ∷ xs) (y ∷ ys) hx hy l e =
    let head : x ≡ y = omega arith in
    let rest = from_le_bytes_inj xs ys hx.1 hy.1 (omega arith) (omega arith) in cc

take-AreBytes : (n : ℕ) (xs : List ℕ) → AreBytes xs → AreBytes (take n xs)
take-AreBytes zero xs h = tt
take-AreBytes (suc n) [] h = tt
take-AreBytes (suc n) (x ∷ xs) h = (h.0, take-AreBytes n xs h.1)

length-take_of_le : (n : ℕ) (xs : List ℕ) → n ≤ length xs → length (take n xs) ≡ n
length-take_of_le zero xs h = refl
length-take_of_le (suc n) [] h = absurd (omega arith)
length-take_of_le (suc n) (x ∷ xs) h = ap suc (length-take_of_le n xs (omega arith))

AreBytes-append : (xs ys : List ℕ) → AreBytes xs → AreBytes ys → AreBytes (xs ++ ys)
AreBytes-append [] ys hx hy = hy
AreBytes-append (x ∷ xs) ys hx hy = (hx.0, AreBytes-append xs ys hx.1 hy)

AreBytes-reverse : (xs : List ℕ) → AreBytes xs → AreBytes (reverse xs)
AreBytes-reverse [] h = tt
AreBytes-reverse (x ∷ xs) h =
    subst AreBytes (sym (reverse-cons x xs))
      (AreBytes-append (reverse xs) (x ∷ []) (AreBytes-reverse xs h.1) (h.0, tt))

length-reverse : (xs : List ℕ) → length (reverse xs) ≡ length xs
length-reverse [] = refl
length-reverse (x ∷ xs) =
    ap length (reverse-cons x xs)
    ∙ omega (arith, length-append (reverse xs) (x ∷ []), length-reverse xs)

-- In both byte orders, as many bytes stand for the same number only when they are the same.
from_ne_bytes_inj :
    (endian : Endian) (xs ys : List ℕ)
    → AreBytes xs
    → AreBytes ys
    → length xs ≡ length ys
    → from_ne_bytes endian xs ≡ from_ne_bytes endian ys
    → xs ≡ ys
unfolding from_ne_bytes
from_ne_bytes_inj little xs ys hx hy l e = from_le_bytes_inj xs ys hx hy l e
from_ne_bytes_inj big xs ys hx hy l e =
    sym (reverse-reverse xs)
    ∙ ap reverse (
        from_le_bytes_inj (reverse xs) (reverse ys) (AreBytes-reverse xs hx)
          (AreBytes-reverse ys hy) (length-reverse xs ∙ l ∙ sym (length-reverse ys)) e)
    ∙ reverse-reverse ys

-- For keys of at least eight bytes nothing is filled up.
hash_to_u64-take :
    (endian : Endian) (key : List ℕ)
    → 8 ≤ length key
    → hash_to_u64 endian key ≡ from_ne_bytes endian (take 8 key)
unfolding hash_to_u64
hash_to_u64-take endian key h =
    rw (length-take_of_le 8 key h) (ap (from_ne_bytes endian) (append-nil (take 8 key)))

-- Two keys of at least eight bytes share their entry in the cache exactly when their first eight
-- bytes agree, whatever the byte order of the target: the rest of the SHA-256 digest plays no part.
pub hash_to_u64_iff :
    (endian : Endian) (key other : List ℕ)
    → AreBytes key
    → AreBytes other
    → 8 ≤ length key
    → 8 ≤ length other
    → (hash_to_u64 endian key ≡ hash_to_u64 endian other) ↔ (take 8 key ≡ take 8 other)
hash_to_u64_iff endian key other bk bo lk lo =
    rw (hash_to_u64-take endian key lk, hash_to_u64-take endian other lo)
      (
        from_ne_bytes_inj endian _ _ (take-AreBytes 8 key bk) (take-AreBytes 8 other bo)
            (length-take_of_le 8 key lk ∙ sym (length-take_of_le 8 other lo)),
        ap (from_ne_bytes endian),
      )
