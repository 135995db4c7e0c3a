-- ===== src/Server/Shutdown.antt =====
-- src/server/mod.rs, `serve` from the spawned servers on, and `shutdown_signal`: a step relation. A
-- server counts as waiting once it has called `shutdown.notified()`; `notify_waiters` reaches the
-- calls that were made before it, and leaves no permit behind for later ones. A graceful shutdown
-- ends when the server's connections have.
pub mod Laws
use soroban_gate.Common.{◌≡◌, ◌≢◌, Bool, true, false, Option, none, some, String, ◌⊎◌}
use soroban_gate.Common.Outcome.{Result, ok, err}

pub data Server : Type 0 where
  main admin metrics : Server

-- What a `JoinHandle` waits for.
pub data Task : Type 0 where
  running waiting draining : Task
  ended : Result (Unit {0}) String → Task

pub record Process : Type 0 where
  pub tasks : Server → Task
  pub signalled : Bool
  pub result : Option (Result (Unit {0}) String)

abbrev is_server : Server → Server → Bool
is_server main main = true
is_server admin admin = true
is_server metrics metrics = true
is_server _ _ = false

abbrev choose : Bool → Task → Task → Task
choose true t u = t
choose false t u = u

abbrev pub put_task : Process → Server → Task → Process
put_task p server task = record p { tasks = λ s. choose (is_server server s) task (p.tasks s) }

-- `shutdown.notify_waiters()`, for one server.
unfoldable pub notify : Task → Task
notify waiting = draining
notify t = t

-- `handle.await??` and what comes after it.
unfoldable pub join : Task → Option (Result (Unit {0}) String) → Option (Result (Unit {0}) String)
join (ended (ok _)) rest = rest
join (ended (err e)) rest = some (err e)
join _ rest = none

-- The handles in the order in which `serve` awaits them.
unfoldable pub join_all : (Server → Task) → Option (Result (Unit {0}) String)
unfolding join
join_all tasks = join (tasks main) (join (tasks metrics) (join (tasks admin) (some (ok tt))))

-- A server may fail at any time before its end.
abbrev pub IsLive : Task → Type 0
IsLive t = (t ≡ running) ⊎ (t ≡ waiting) ⊎ (t ≡ draining)

pub data Step (p : Process) : Process → Type 0 where
  waits : (s : Server) → p.tasks s ≡ running → Step p (put_task p s waiting)
  fails : (s : Server) (e : String) → IsLive (p.tasks s) → Step p (put_task p s (ended (err e)))
  -- `shutdown_signal` returns, once.
  signals :
      p.signalled ≡ false → Step p (record p { signalled = true; tasks = λ s. notify (p.tasks s) })
  drains : (s : Server) → p.tasks s ≡ draining → Step p (put_task p s (ended (ok tt)))
  returns :
      (r : Result (Unit {0}) String)
      → p.signalled ≡ true
      → join_all p.tasks ≡ some r
      → Step p (record p { result = some r })

-- The servers are spawned; without metrics the third task has ended at once.
unfoldable pub spawned : Bool → Process
spawned metrics_enabled = record {
  tasks = λ s. elim s [
    | main ↦ running
    | admin ↦ running
    | metrics ↦ choose metrics_enabled running (ended (ok tt))
  ];
  signalled = false;
  result = none;
}

pub data Steps (p : Process) : Process → Type 0 where
  done : Steps p p
  more : {q r : Process} → Steps p q → Step q r → Steps p r
