-- ===== src/Agent/App/Senders.antt =====
-- What the agent sends through its pool.
use go_musthave_metrics.Base.{ℕ, ◌≡◌, refl, ◌+◌, ◌*◌, ◌<◌, false, some, [], arith}
use go_musthave_metrics.Base.Ints.{ℤ, pos, negsuc}
use go_musthave_metrics.Config.{AgentFlags}
use go_musthave_metrics.Agent.Pool.{WorkerPool, Reach, start}
use go_musthave_metrics.Agent.Pool.Drains.{accepted_can_run}
use go_musthave_metrics.Agent.App.{App, pooled, new_metrics_sender, twice, initialize}

-- The pool of an agent that starts has as many workers as the limit says, at least one, and room for
-- twice as many tasks.
pub initialize-pooled :
    (cfg : AgentFlags) (app : App) (pool : WorkerPool)
    → initialize cfg ≡ some app
    → app.sender ≡ pooled pool
    → (n : ℕ) × (cfg.rate_limit ≡ pos n) × (0 < n) × (pool ≡ start n (n * 2))
unfolding initialize new_metrics_sender twice
initialize-pooled cfg app pool e s = go cfg.rate_limit refl
  where
    go :
        (r : ℤ)
        → cfg.rate_limit ≡ r
        → (n : ℕ) × (cfg.rate_limit ≡ pos n) × (0 < n) × (pool ≡ start n (n * 2))
    go (pos (ℕ.suc n)) l = (n + 1, ground (arith, l), omega arith, ground (arith, l))
    go (pos (ℕ.zero)) l = absurd (ground (arith, l))
    go (negsuc n) l = absurd (ground (arith, l))

-- From every state that the pool of an initialized agent can reach before it is stopped, its workers
-- can go on until no report is queued and none is being sent, with nothing more submitted or dropped;
-- then every report that was not dropped has been sent or has failed.
pub agent_reports_can_run :
    (cfg : AgentFlags) (app : App) (pool p : WorkerPool)
    → initialize cfg ≡ some app
    → app.sender ≡ pooled pool
    → Reach pool p
    → p.cancelled ≡ false
    → (q : WorkerPool) × Reach p q
      × (q.tasks ≡ [])
      × (q.active_workers ≡ 0)
      × (q.submitted ≡ p.submitted)
      × (q.dropped_tasks ≡ p.dropped_tasks)
      × (q.submitted ≡ q.processed_tasks + q.dropped_tasks)
agent_reports_can_run cfg app pool p e s reached running =
    let (n, limit, some_worker, started) = initialize-pooled cfg app pool e s in
    accepted_can_run n (n * 2) p some_worker (rw (← started) reached) running
