-- ===== src/External/Http.antt =====
-- The parts of the `http` crate that a handler reads: header values that may not be visible ASCII,
-- header maps and request targets.
use soroban_gate.Common.{Option, String}

-- `to_str` gives nothing where the value holds other bytes than visible ASCII.
pub record HeaderValue : Type 0 where
  pub to_str : Option String

pub record HeaderMap : Type 0 where
  pub get : String → Option HeaderValue

pub record Uri : Type 0 where
  pub path : String
  pub query : Option String
