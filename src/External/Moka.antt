-- ===== src/External/Moka.antt =====
-- The `moka::sync::Cache` crate over values `V`, with `u64` keys. The crate may drop entries at any
-- time, to keep within its capacity: `maintain` is one such round of its own housekeeping.
use soroban_gate.Common.{ℕ, ◌≡◌, ◌≢◌, ◌⊎◌, Option, none, some}
use soroban_gate.External.Target.{Endian}

pub record Moka (V : Type 0) : Type 1 where
  -- The byte order of the target that the crate is compiled for, and the program with it.
  pub endian : Endian
  pub Store : Type 0
  -- `Cache::builder().max_capacity(n).build()`.
  pub build : ℕ → Store
  pub get : ℕ → Store → Option V
  pub insert : ℕ → V → Store → Store
  pub invalidate : ℕ → Store → Store
  pub invalidate_all : Store → Store
  pub entry_count : Store → ℕ
  pub maintain : Store → Store

-- The cache makes no entry up: what it holds for a key is what was last inserted for that key and
-- not invalidated since.
pub record IsSound {V : Type 0} (m : Moka V) : Type 0 where
  pub build_empty : (n k : ℕ) → m.get k (m.build n) ≡ none
  pub get-insert :
      (k q : ℕ) (v w : V) (s : m.Store)
      → m.get q (m.insert k v s) ≡ some w
      → ((k ≡ q) × (w ≡ v)) ⊎ ((k ≢ q) × (m.get q s ≡ some w))
  pub get-invalidate :
      (k q : ℕ) (w : V) (s : m.Store)
      → m.get q (m.invalidate k s) ≡ some w
      → (k ≢ q) × (m.get q s ≡ some w)
  pub get-invalidate_all : (q : ℕ) (s : m.Store) → m.get q (m.invalidate_all s) ≡ none
  pub get-maintain :
      (q : ℕ) (w : V) (s : m.Store) → m.get q (m.maintain s) ≡ some w → m.get q s ≡ some w
