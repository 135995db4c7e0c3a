-- ===== src/Common/Text.antt =====
-- `str` operations of the standard library that the gateway calls, over the native `String`.
use Prim.Native.Char.{code}
use Prim.Native.String
use Prim.Native.String.{String}
use mathlib.Core.Bool.{Bool, true, false, ◌&&◌}
use Prim.Native.Nat.{ℕ}
use mathlib.Core.Option.{Option, none, some}
use soroban_gate.Common.Tests.{if◌then◌else◌, ◌==◌, leb}

abbrev pub is_empty_str : String → Bool
is_empty_str String.[] = true
is_empty_str (String.◌∷◌ c s) = false

-- `s.strip_prefix(p)`.
unfoldable pub strip_prefix : String → String → Option String
strip_prefix s String.[] = some s
strip_prefix String.[] (String.◌∷◌ p ps) = none
strip_prefix (String.◌∷◌ c s) (String.◌∷◌ p ps) =
    if code c == code p then strip_prefix s ps else none

-- Joining texts, as `format!` does.
abbrev pub cat : String → String → String
cat s t = String.◌++◌ s t

abbrev is_some {ℓ} : {A : Type ℓ} → Option A → Bool
is_some none = false
is_some (some a) = true

-- `s.contains(p)`.
unfoldable pub contains : String → String → Bool
unfolding strip_prefix
contains String.[] p = is_some (strip_prefix String.[] p)
contains (String.◌∷◌ c s) p =
    if is_some (strip_prefix (String.◌∷◌ c s) p) then true else contains s p

-- `s.split(c).next()`, for the separator's code.
unfoldable pub split_first : ℕ → String → String
split_first separator String.[] = String.[]
split_first separator (String.◌∷◌ c s) =
    if code c == separator then String.[] else String.◌∷◌ c (split_first separator s)

-- The white space of ASCII, which is all that a header's text can hold.
abbrev is_whitespace : ℕ → Bool
is_whitespace c = if c == 32 then true else leb 9 c && leb c 13

unfoldable pub trim_start : String → String
trim_start String.[] = String.[]
trim_start (String.◌∷◌ c s) = if is_whitespace (code c) then trim_start s else String.◌∷◌ c s

unfoldable pub trim_end : String → String
trim_end String.[] = String.[]
trim_end (String.◌∷◌ c s) =
    let rest = trim_end s in
    if is_whitespace (code c) && is_empty_str rest then String.[] else String.◌∷◌ c rest

-- `s.trim()`.
unfoldable pub trim : String → String
unfolding trim_start trim_end
trim s = trim_end (trim_start s)
