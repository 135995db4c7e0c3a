-- ===== src/Server/Shutdown/Laws.antt =====
-- src/server/mod.rs, `serve`: which servers a signal ends.
use soroban_gate.Common.{
  ◌≡◌, ◌≢◌, ◌∙◌, ap, sym, refl, subst, true, false, Option, none, some, String, inl, inr, ◌⊎◌,
  arith,
}
use soroban_gate.Common.Outcome.{Result, ok, err}
use soroban_gate.Server.Shutdown.{
  Server, main, admin, metrics, Task, running, waiting, draining, ended, Process, put_task, notify,
  join, join_all, Step, waits, fails, signals, drains, returns, Steps, done, more,
}

-- The server goes on, or has failed; it has not been told to stop.
abbrev pub Untold : Task → Type 0
Untold t = (t ≡ running) ⊎ (t ≡ waiting) ⊎ ((e : String) × (t ≡ ended (err e)))

Untold-draining : ¬ Untold draining
Untold-draining u = ground arith

abbrev NotOk : Option (Result (Unit {0}) String) → Type 0
NotOk o = o ≢ some (ok tt)

Untold-put_task :
    (p : Process) (s server : Server) (task : Task)
    → Untold (p.tasks s)
    → (server ≡ s → Untold task)
    → Untold ((put_task p server task).tasks s)
Untold-put_task p main main task u h = h refl
Untold-put_task p main admin task u h = u
Untold-put_task p main metrics task u h = u
Untold-put_task p admin main task u h = u
Untold-put_task p admin admin task u h = h refl
Untold-put_task p admin metrics task u h = u
Untold-put_task p metrics main task u h = u
Untold-put_task p metrics admin task u h = u
Untold-put_task p metrics metrics task u h = h refl

join-NotOk :
    (t : Task) (rest : Option (Result (Unit {0}) String))
    → (Untold t ⊎ NotOk rest)
    → NotOk (join t rest)
unfolding join
join-NotOk running rest h e = cc
join-NotOk waiting rest h e = cc
join-NotOk draining rest h e = cc
join-NotOk (ended (err x)) rest h e = cc
join-NotOk (ended (ok u)) rest (inr h) e = h e
join-NotOk (ended (ok u)) rest (inl h) e = ground (arith, h)

join_all-NotOk : (tasks : Server → Task) (s : Server) → Untold (tasks s) → NotOk (join_all tasks)
unfolding join_all
join_all-NotOk tasks main u = join-NotOk (tasks main) _ (inl u)
join_all-NotOk tasks metrics u =
    join-NotOk (tasks main) _ (inr (join-NotOk (tasks metrics) _ (inl u)))
join_all-NotOk tasks admin u =
    join-NotOk (tasks main) _
      (inr (join-NotOk (tasks metrics) _ (inr (join-NotOk (tasks admin) _ (inl u)))))

-- The signal is past, and the server has missed it.
abbrev Missed : Server → Process → Type 0
Missed s p = (p.signalled ≡ true) × (Untold (p.tasks s) × NotOk p.result)

Step-Missed : (s : Server) (p q : Process) → Step p q → Missed s p → Missed s q
Step-Missed s p _ (waits server e) (on, (u, n)) =
    (on, (Untold-put_task p s server waiting u (λ same. inr (inl refl)), n))
Step-Missed s p _ (fails server x live) (on, (u, n)) =
    (on, (Untold-put_task p s server (ended (err x)) u (λ same. inr (inr (x, refl))), n))
Step-Missed s p _ (signals off) (on, (u, n)) = ground (arith, on, off)
Step-Missed s p _ (drains server e) (on, (u, n)) = (
  on,
  (
    Untold-put_task p s server (ended (ok tt)) u
        (λ same. absurd (Untold-draining (subst Untold (ap p.tasks (sym same) ∙ e) u))),
    n,
  ),
)
Step-Missed s p _ (returns r on' e) (on, (u, n)) =
    (on, (u, λ same. join_all-NotOk p.tasks s u (e ∙ same)))

Steps-Missed : (s : Server) (p : Process) {q : Process} → Steps p q → Missed s p → Missed s q
Steps-Missed s p done m = m
Steps-Missed s p (more {q} {r} steps step) m = Step-Missed s q r step (Steps-Missed s p steps m)

-- A server that has not yet asked to be notified when the signal comes is never told to stop:
-- whatever happens afterwards, it goes on or fails of itself, and `serve` does not return with
-- success.
pub Steps-never_told :
    (s : Server) (p q : Process)
    → p.signalled ≡ true
    → p.tasks s ≡ running
    → p.result ≡ none
    → Steps p q
    → Untold (q.tasks s) × (q.result ≢ some (ok tt))
Steps-never_told s p q on still nothing steps =
    let (on', missed) = Steps-Missed s p steps (on, (inl still, λ e. ground (arith, e, nothing))) in
    missed

append : {p q r : Process} → Steps p q → Steps q r → Steps p r
append a done = a
append a (more b step) = more (append a b) step

-- The server stops at the signal, or has stopped with success.
abbrev IsReady : Task → Type 0
IsReady t = (t ≡ waiting) ⊎ (t ≡ ended (ok tt))

abbrev Settles : Task → Type 0
Settles t = (t ≡ draining) ⊎ (t ≡ ended (ok tt))

notify-Settles : (t : Task) → IsReady t → Settles (notify t)
unfolding notify
notify-Settles t (inl e) = inl (rw e refl)
notify-Settles t (inr e) = inr (rw e refl)

put_task-Settles :
    (p : Process) (s t : Server)
    → Settles (p.tasks t)
    → Settles ((put_task p s (ended (ok tt))).tasks t)
put_task-Settles p main main h = inr refl
put_task-Settles p main admin h = h
put_task-Settles p main metrics h = h
put_task-Settles p admin main h = h
put_task-Settles p admin admin h = inr refl
put_task-Settles p admin metrics h = h
put_task-Settles p metrics main h = h
put_task-Settles p metrics admin h = h
put_task-Settles p metrics metrics h = inr refl

put_task-ended :
    (p : Process) (s t : Server)
    → p.tasks t ≡ ended (ok tt)
    → (put_task p s (ended (ok tt))).tasks t ≡ ended (ok tt)
put_task-ended p main main h = refl
put_task-ended p main admin h = h
put_task-ended p main metrics h = h
put_task-ended p admin main h = h
put_task-ended p admin admin h = refl
put_task-ended p admin metrics h = h
put_task-ended p metrics main h = h
put_task-ended p metrics admin h = h
put_task-ended p metrics metrics h = refl

put_task_self : (p : Process) (s : Server) (task : Task) → (put_task p s task).tasks s ≡ task
put_task_self p main task = refl
put_task_self p admin task = refl
put_task_self p metrics task = refl

-- A process in which the server has ended, and the others are as far as they were.
abbrev Drained : Process → Server → Type 0
Drained p s =
    (q : Process) × (Steps p q
      × ((q.signalled ≡ p.signalled)
          × ((q.tasks s ≡ ended (ok tt))
              × ((t : Server)
                  → (Settles (p.tasks t) → Settles (q.tasks t))
                    × (p.tasks t ≡ ended (ok tt) → q.tasks t ≡ ended (ok tt))))))

drain : (p : Process) (s : Server) → Settles (p.tasks s) → Drained p s
drain p s (inr e) = (p, (done, (refl, (e, λ t. (λ h. h, λ h. h)))))
drain p s (inl e) = (
  put_task p s (ended (ok tt)),
  (
    more done (drains s e),
    (refl, (put_task_self p s _, λ t. (put_task-Settles p s t, put_task-ended p s t))),
  ),
)

join_all-ok :
    (tasks : Server → Task)
    → tasks main ≡ ended (ok tt)
    → tasks admin ≡ ended (ok tt)
    → tasks metrics ≡ ended (ok tt)
    → join_all tasks ≡ some (ok tt)
unfolding join_all join
join_all-ok tasks a b c = rw (a, b, c) refl

-- When every server has asked to be notified before the signal, or has ended with success, then the
-- signal lets `serve` return with success: there are steps after which it has.
pub Steps-shut_down :
    (p : Process)
    → p.signalled ≡ false
    → ((s : Server) → (p.tasks s ≡ waiting) ⊎ (p.tasks s ≡ ended (ok tt)))
    → (q : Process) × Steps p q × (q.result ≡ some (ok tt))
Steps-shut_down p off ready =
    let told : Process = record p { signalled = true; tasks = λ s. notify (p.tasks s) } in
    let settled : (s : Server) → Settles (told.tasks s) =
      λ s. notify-Settles (p.tasks s) (ready s) in
    let (a, (steps_a, (on_a, (main_a, keeps_a)))) = drain told main (settled main) in
    let (b, (steps_b, (on_b, (admin_b, keeps_b)))) =
      drain a admin ((keeps_a admin).0 (settled admin)) in
    let (c, (steps_c, (on_c, (metrics_c, keeps_c)))) =
      drain b metrics ((keeps_b metrics).0 ((keeps_a metrics).0 (settled metrics))) in
    let main_c = (keeps_c main).1 ((keeps_b main).1 main_a) in
    let admin_c = (keeps_c admin).1 admin_b in
    (
      record c { result = some (ok tt) },
      more (append (append (append (more done (signals off)) steps_a) steps_b) steps_c)
          (returns (ok tt) (on_c ∙ on_b ∙ on_a) (join_all-ok c.tasks main_c admin_c metrics_c)),
      refl,
    )
