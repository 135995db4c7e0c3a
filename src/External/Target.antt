-- ===== src/External/Target.antt =====
-- The target that the program and its crates are compiled for.

-- The order of the bytes in a word.
pub data Endian : Type 0 where
  little : Endian
  big : Endian
