-- ===== src/Agent/Pool.antt =====
-- internal/agent/sender/worker_pool.go: the channel of tasks, the workers and the counters, as steps
-- that may interleave in any order. A task is a number. The counters are atomic; their wrap-around
-- at 2 ^ 64 is left out.
pub mod Tasks
pub mod Drains
use go_musthave_metrics.Base.{
  ℕ, suc, ◌+◌, ◌-◌, ◌*◌, ◌≤◌, ◌<◌, ◌≡◌, Bool, true, false, List, [], ◌∷◌, ◌++◌, length,
}

pub record WorkerPool : Type 0 where
  pub tasks : List ℕ
  pub queue_size : ℕ
  -- the context is cancelled; the channel is closed
  pub cancelled : Bool
  pub closed : Bool
  -- workers at their select, and workers that run a task
  pub waiting : ℕ
  pub active_workers : ℕ
  pub dropped_tasks : ℕ
  pub processed_tasks : ℕ
  -- calls of `Submit` that have returned, and the panic of a send on the closed channel
  pub submitted : ℕ
  pub panicked : Bool

-- `NewWorkerPool` and `Start`.
unfoldable pub start : ℕ → ℕ → WorkerPool
start workers queue_size = record {
  tasks = [];
  queue_size = queue_size;
  cancelled = false;
  closed = false;
  waiting = workers;
  active_workers = 0;
  dropped_tasks = 0;
  processed_tasks = 0;
  submitted = 0;
  panicked = false;
}

pub data Step (p : WorkerPool) : WorkerPool → Type 0 where
  -- the three cases of `Submit`: a case that is ready may be chosen, `default` if none is
  submit_sends :
      (t : ℕ)
      → p.closed ≡ false
      → length p.tasks < p.queue_size
      → Step p (record p { tasks = p.tasks ++ t ∷ []; submitted = p.submitted + 1 })
  submit_panics : p.closed ≡ true → Step p (record p { panicked = true })
  submit_cancelled :
      p.cancelled ≡ true
      → Step p (record p { dropped_tasks = p.dropped_tasks + 1; submitted = p.submitted + 1 })
  submit_full :
      p.closed ≡ false
      → p.queue_size ≤ length p.tasks
      → p.cancelled ≡ false
      → Step p (record p { dropped_tasks = p.dropped_tasks + 1; submitted = p.submitted + 1 })
  -- the select of a worker
  takes :
      (t : ℕ) (rest : List ℕ)
      → 0 < p.waiting
      → p.tasks ≡ t ∷ rest
      → Step p (record p {
        tasks = rest;
        waiting = p.waiting - 1;
        active_workers = p.active_workers + 1;
      })
  finishes :
      0 < p.active_workers
      → Step p (record p {
        active_workers = p.active_workers - 1;
        processed_tasks = p.processed_tasks + 1;
        waiting = p.waiting + 1;
      })
  exits_closed :
      0 < p.waiting → p.closed ≡ true → p.tasks ≡ [] → Step p (record p { waiting = p.waiting - 1 })
  exits_cancelled :
      0 < p.waiting → p.cancelled ≡ true → Step p (record p { waiting = p.waiting - 1 })
  -- the two lines of `Stop` before the wait
  stop_cancels : Step p (record p { cancelled = true })
  stop_closes : p.cancelled ≡ true → p.closed ≡ false → Step p (record p { closed = true })

pub data Reach (p : WorkerPool) : WorkerPool → Type 0 where
  here : Reach p p
  next : {q r : WorkerPool} → Reach p q → Step q r → Reach p r
