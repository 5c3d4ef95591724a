-- ===== src/Agent/Pool/Tasks.antt =====
-- Where the tasks go.
use go_musthave_metrics.Base.{
  ℕ, zero, suc, ◌+◌, ◌-◌, ◌≤◌, ◌≡◌, refl, ap, true, false, [], ◌∷◌, length, length-append, arith,
}
use go_musthave_metrics.Agent.Pool.{
  WorkerPool, start, Step, submit_sends, submit_panics, submit_cancelled, submit_full, takes,
  finishes, exits_closed, exits_cancelled, stop_cancels, stop_closes, Reach, here, next,
}

-- Every task that was submitted is queued, running, done or counted as dropped; the queue is within
-- its size and no more workers run than were started.
pub record IsBalanced (workers queue_size : ℕ) (p : WorkerPool) : Type 0 where
  pub accounted :
      p.submitted ≡ length p.tasks + p.active_workers + p.processed_tasks + p.dropped_tasks
  pub size : p.queue_size ≡ queue_size
  pub bounded : length p.tasks ≤ queue_size
  pub staffed : p.waiting + p.active_workers ≤ workers
  pub closed_last : p.closed ≡ true → p.cancelled ≡ true

Step-IsBalanced :
    {workers queue_size : ℕ} {p q : WorkerPool}
    → Step p q
    → IsBalanced workers queue_size p
    → IsBalanced workers queue_size q
Step-IsBalanced {p} (submit_sends t c h) b = ground (arith, length-append {0} p.tasks (t ∷ []))
Step-IsBalanced (submit_panics c) b = ground arith
Step-IsBalanced (submit_cancelled c) b = ground arith
Step-IsBalanced (submit_full c f n) b = ground arith
Step-IsBalanced (takes t rest w e) b = ground (arith, ap length e)
Step-IsBalanced (finishes a) b = ground arith
Step-IsBalanced (exits_closed w c e) b = ground arith
Step-IsBalanced (exits_cancelled w c) b = ground arith
Step-IsBalanced stop_cancels b = ground arith
Step-IsBalanced (stop_closes c n) b = ground arith

Reach-IsBalanced :
    {workers queue_size : ℕ} {p q : WorkerPool}
    → IsBalanced workers queue_size p
    → Reach p q
    → IsBalanced workers queue_size q
Reach-IsBalanced b here = b
Reach-IsBalanced b (next r s) = Step-IsBalanced s (Reach-IsBalanced b r)

-- Whatever the interleaving, no task of a started pool is lost from the account.
pub start-IsBalanced :
    (workers queue_size : ℕ) (q : WorkerPool)
    → Reach (start workers queue_size) q
    → IsBalanced workers queue_size q
start-IsBalanced workers queue_size q r = Reach-IsBalanced fresh r
  where
    fresh : IsBalanced workers queue_size (start workers queue_size)
    fresh = unfold start in ground arith

pub append-Reach : {p q r : WorkerPool} → Reach p q → Reach q r → Reach p r
append-Reach a here = a
append-Reach a (next b s) = next (append-Reach a b) s

worker_quits :
    (n m : ℕ) (p : WorkerPool)
    → p.cancelled ≡ true
    → suc n - 1 ≡ m
    → Step (record p { waiting = suc n }) (record p { waiting = m })
worker_quits n m p c e = rw (← e) (exits_cancelled (omega arith) c)

workers_quit :
    (n : ℕ) (p : WorkerPool)
    → p.cancelled ≡ true
    → Reach (record p { waiting = n }) (record p { waiting = 0 })
workers_quit zero p c = here
workers_quit (suc n) p c =
    append-Reach (next here (worker_quits n n p c (omega arith))) (workers_quit n p c)

-- On a pool whose channel is open, `Stop` may end with every waiting worker gone and the whole
-- queue untouched: none of its tasks is run, and none is counted as dropped.
pub stop_abandons_queue :
    (p : WorkerPool)
    → p.closed ≡ false
    → Reach p (record p { cancelled = true; closed = true; waiting = 0 })
stop_abandons_queue p open_channel =
    append-Reach (next (next here stop_cancels) (stop_closes refl open_channel))
      (workers_quit p.waiting (record p { cancelled = true; closed = true }) refl)
