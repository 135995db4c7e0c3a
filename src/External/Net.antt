-- ===== src/External/Net.antt =====
-- Listening sockets, as the operating system gives them to `tokio` and `axum_server`.
use soroban_gate.Common.{◌≡◌, ◌≢◌, Bool, true, String}
use soroban_gate.Common.Outcome.{Result, ok}

pub record Net : Type 1 where
  -- The sockets that are bound.
  pub Sockets : Type 0
  -- Binds a listener to an address; the error has a text.
  pub bind : Sockets → String → Result Sockets String
  -- Some listener that is not closed is bound to the address.
  pub held : Sockets → String → Bool
  -- The address names a port: it does not leave the choice of a port to the system, as port 0 does.
  pub names_port : String → Bool

pub record IsLawful (net : Net) : Type 0 where
  pub bind-held :
      (s t : net.Sockets) (address : String) → net.bind s address ≡ ok t → net.held t address ≡ true
  pub bind-keeps :
      (s t : net.Sockets) (address other : String)
      → net.bind s address ≡ ok t
      → net.held s other ≡ true
      → net.held t other ≡ true
  pub bind-in_use :
      (s t : net.Sockets) (address : String)
      → net.names_port address ≡ true
      → net.held s address ≡ true
      → net.bind s address ≢ ok t
