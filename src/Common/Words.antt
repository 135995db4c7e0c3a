-- ===== src/Common/Words.antt =====
-- Machine words as numbers with the wrap-around written out, and the signed reading of a 64-bit
-- word (`i64`) as an integer over the native numbers.
use Prim.Native.Nat.{ℕ, suc, ◌+◌, ◌-◌, ◌%◌, ◌^◌, ◌<◌}
use mathlib.Core.Path.{◌≡◌}
use mathlib.Core.Bool.{Bool}
use native.Mathlib.Omega.{arith}
use soroban_gate.Common.Tests.{ltb, leb, if◌then◌else◌}

abbrev pub u32_mod : ℕ
u32_mod = 2 ^ 32

abbrev pub u64_mod : ℕ
u64_mod = 2 ^ 64

abbrev pub i64_half : ℕ
i64_half = 2 ^ 63

-- `x += 1` on a `u32` (release profile: it wraps).
abbrev pub inc_u32 : ℕ → ℕ
inc_u32 x = (x + 1) % u32_mod

-- `fetch_add(1)` and `fetch_sub(1)` on a 64-bit atomic.
abbrev pub inc_u64 : ℕ → ℕ
inc_u64 x = (x + 1) % u64_mod

abbrev pub dec_u64 : ℕ → ℕ
dec_u64 x = (x + u64_mod - 1) % u64_mod

-- `negsuc n` is -(n + 1).
pub data ℤ : Type 0 where
  pos : ℕ → ℤ
  negsuc : ℕ → ℤ

-- The integer that a 64-bit word stands for as an `i64`.
abbrev pub i64_of : ℕ → ℤ
i64_of w = if ltb w i64_half then pos w else negsuc (u64_mod - 1 - w)

-- `a <= b` on integers.
abbrev pub leb_ℤ : ℤ → ℤ → Bool
leb_ℤ (pos a) (pos b) = leb a b
leb_ℤ (pos a) (negsuc b) = leb (suc a) 0
leb_ℤ (negsuc a) (pos b) = leb 0 b
leb_ℤ (negsuc a) (negsuc b) = leb b a

pub dec_u64-inc_u64 : (x : ℕ) → x < u64_mod → dec_u64 (inc_u64 x) ≡ x
dec_u64-inc_u64 x h = omega arith
