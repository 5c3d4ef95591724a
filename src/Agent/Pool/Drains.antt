-- ===== src/Agent/Pool/Drains.antt =====
-- That the workers can always catch up with the queue.
use go_musthave_metrics.Base.{
  ℕ, zero, suc, ◌+◌, ◌-◌, ◌<◌, ◌≡◌, refl, ◌∙◌, ap, true, false, List, [], ◌∷◌, length, arith,
}
use go_musthave_metrics.Agent.Pool.{
  WorkerPool, start, Step, submit_sends, submit_panics, submit_cancelled, submit_full, takes,
  finishes, exits_closed, exits_cancelled, stop_cancels, stop_closes, Reach, here, next,
}
use go_musthave_metrics.Agent.Pool.Tasks.{start-IsBalanced, append-Reach}

-- Until `Stop` no worker has left.
record IsStaffed (workers : ℕ) (p : WorkerPool) : Type 0 where
  closed_last : p.closed ≡ true → p.cancelled ≡ true
  all_there : p.cancelled ≡ false → p.waiting + p.active_workers ≡ workers

Step-IsStaffed :
    {workers : ℕ} {p q : WorkerPool} → Step p q → IsStaffed workers p → IsStaffed workers q
Step-IsStaffed (submit_sends t c h) b = ground arith
Step-IsStaffed (submit_panics c) b = ground arith
Step-IsStaffed (submit_cancelled c) b = ground arith
Step-IsStaffed (submit_full c f n) b = ground arith
Step-IsStaffed (takes t rest w e) b = ground arith
Step-IsStaffed (finishes a) b = ground arith
Step-IsStaffed (exits_closed w c e) b = ground arith
Step-IsStaffed (exits_cancelled w c) b = ground arith
Step-IsStaffed stop_cancels b = ground arith
Step-IsStaffed (stop_closes c n) b = ground arith

Reach-IsStaffed :
    {workers : ℕ} {p q : WorkerPool} → IsStaffed workers p → Reach p q → IsStaffed workers q
Reach-IsStaffed b here = b
Reach-IsStaffed b (next r s) = Step-IsStaffed s (Reach-IsStaffed b r)

start-IsStaffed : (workers queue_size : ℕ) → IsStaffed workers (start workers queue_size)
unfolding start
start-IsStaffed workers queue_size = ground arith

-- The running tasks may finish first.
all_finish :
    (n : ℕ) (p : WorkerPool)
    → p.active_workers ≡ n
    → (q : WorkerPool) × Reach p q
      × (q.active_workers ≡ 0)
      × (q.tasks ≡ p.tasks)
      × (q.waiting ≡ p.waiting + n)
      × (q.submitted ≡ p.submitted)
      × (q.dropped_tasks ≡ p.dropped_tasks)
all_finish zero p e = (p, here, e, refl, omega arith, refl, refl)
all_finish (suc n) p e =
    let p' : WorkerPool = record p {
      active_workers = p.active_workers - 1;
      processed_tasks = p.processed_tasks + 1;
      waiting = p.waiting + 1;
    } in
    let (q, r, active, tasks, waiting, submitted, dropped) = all_finish n p' (omega arith) in
    (
      q,
      append-Reach (next here (finishes (omega arith))) r,
      active,
      tasks,
      omega (arith, waiting),
      submitted,
      dropped,
    )

-- One worker is enough for the queue.
queue_empties :
    (ts : List ℕ) (p : WorkerPool)
    → p.tasks ≡ ts
    → p.active_workers ≡ 0
    → 0 < p.waiting
    → (q : WorkerPool) × Reach p q
      × (q.active_workers ≡ 0)
      × (q.tasks ≡ [])
      × (q.submitted ≡ p.submitted)
      × (q.dropped_tasks ≡ p.dropped_tasks)
queue_empties [] p e a w = (p, here, a, e, refl, refl)
queue_empties (t ∷ ts) p e a w =
    let taken : WorkerPool = record p {
      tasks = ts;
      waiting = p.waiting - 1;
      active_workers = p.active_workers + 1;
    } in
    let done : WorkerPool = record taken {
      active_workers = taken.active_workers - 1;
      processed_tasks = taken.processed_tasks + 1;
      waiting = taken.waiting + 1;
    } in
    let (q, r, active, tasks, submitted, dropped) =
      queue_empties ts done refl (omega arith) (omega arith) in
    (
      q,
      append-Reach (next (next here (takes t ts w e)) (finishes (omega arith))) r,
      active,
      tasks,
      submitted,
      dropped,
    )

-- From every state that a pool with at least one worker can reach before it is stopped, its workers
-- can go on until the queue is empty and no task runs, with nothing more submitted or dropped; then
-- every task that was not dropped has been processed.
pub accepted_can_run :
    (workers queue_size : ℕ) (p : WorkerPool)
    → 0 < workers
    → Reach (start workers queue_size) p
    → p.cancelled ≡ false
    → (q : WorkerPool) × Reach p q
      × (q.tasks ≡ [])
      × (q.active_workers ≡ 0)
      × (q.submitted ≡ p.submitted)
      × (q.dropped_tasks ≡ p.dropped_tasks)
      × (q.submitted ≡ q.processed_tasks + q.dropped_tasks)
accepted_can_run workers queue_size p some_worker reached running =
    let staffed =
      (Reach-IsStaffed (start-IsStaffed workers queue_size) reached).all_there running in
    let (m, r1, idle, tasks1, waiting, submitted1, dropped1) = all_finish p.active_workers p refl in
    let (q, r2, active, tasks, submitted, dropped) =
      queue_empties p.tasks m tasks1 idle (omega arith) in
    let balanced =
      (start-IsBalanced workers queue_size q
        (append-Reach reached (append-Reach r1 r2))).accounted in
    (
      q,
      append-Reach r1 r2,
      tasks,
      active,
      submitted ∙ submitted1,
      dropped ∙ dropped1,
      omega (arith, balanced, ap length tasks, active),
    )
