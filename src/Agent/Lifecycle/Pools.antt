-- ===== src/Agent/Lifecycle/Pools.antt =====
-- What an agent with a pool leaves behind when `Wait` has returned, and when it may panic.
use go_musthave_metrics.Base.{
  ℕ, ◌+◌, ◌*◌, ◌≤◌, ◌≡◌, refl, ap, Bool, true, false, some, length, arith,
}
use mathlib.Core.Path.{subst}
use go_musthave_metrics.Config.{AgentFlags}
use go_musthave_metrics.Agent.Pool
use go_musthave_metrics.Agent.Pool.{
  WorkerPool, start, submit_sends, submit_panics, submit_cancelled, submit_full, takes,
  exits_closed, exits_cancelled, stop_cancels, stop_closes,
}
use go_musthave_metrics.Agent.Pool.Tasks.{start-IsBalanced}
use go_musthave_metrics.Agent.App.{App, MetricsSender, pooled, unlimited, initialize}
use go_musthave_metrics.Agent.App.Senders.{initialize-pooled}
use go_musthave_metrics.Agent.Lifecycle.Pooled.{Follows, Reach-Follows, launch-Follows}
use go_musthave_metrics.Agent.Lifecycle.{
  Phase, runs, stops_sender, waits_reporter, returned, reports, ended, Sending, goroutines, workers,
  Agent, launch, Move, signalled, ticks, begins, ends, sends, finishes, submits, panics, works,
  stops_tickers, goroutines_gone, cancels, closes, workers_gone, returns, step, Reach, here, next,
}

abbrev is_closed : Sending → Bool
is_closed (goroutines gs) = false
is_closed (workers p) = p.closed

-- The workers that have not left.
abbrev staff : Sending → ℕ
staff (goroutines gs) = 0
staff (workers p) = p.waiting + p.active_workers

abbrev is_past : Phase → Bool
is_past runs = false
is_past stops_sender = false
is_past waits_reporter = true
is_past returned = true

Step-staff :
    {p q : WorkerPool} → Pool.Step p q → q.waiting + q.active_workers ≤ p.waiting + p.active_workers
Step-staff (submit_sends t c h) = omega arith
Step-staff (submit_panics c) = omega arith
Step-staff (submit_cancelled c) = omega arith
Step-staff (submit_full c f n) = omega arith
Step-staff (takes t rest w e) = omega arith
Step-staff (Pool.finishes a) = omega arith
Step-staff (exits_closed w c e) = omega arith
Step-staff (exits_cancelled w c) = omega arith
Step-staff stop_cancels = omega arith
Step-staff (stop_closes c n) = omega arith

Step-closed :
    {p q : WorkerPool} → Pool.Step p q → q.submitted ≡ p.submitted + 1 → q.closed ≡ p.closed
Step-closed (submit_sends t c h) n = refl
Step-closed (submit_panics c) n = refl
Step-closed (submit_cancelled c) n = refl
Step-closed (submit_full c f m) n = refl
Step-closed (takes t rest w e) n = refl
Step-closed (Pool.finishes a) n = refl
Step-closed (exits_closed w c e) n = refl
Step-closed (exits_cancelled w c) n = refl
Step-closed stop_cancels n = refl
Step-closed (stop_closes c m) n = absurd (omega arith)

record IsClosing (a : Agent) : Type 0 where
  open_running : a.phase ≡ runs → is_closed a.sending ≡ false
  safe : a.phase ≡ runs → a.crashed ≡ false
  gone : is_past a.phase ≡ true → staff a.sending ≡ 0
  at_end : a.phase ≡ returned → a.reporter ≡ ended

Move-IsClosing : {a b : Agent} → Move a b → IsClosing a → IsClosing b
Move-IsClosing signalled o = ground (arith, o.open_running, o.safe, o.gone, o.at_end)
Move-IsClosing (ticks r) o = ground (arith, o.open_running, o.safe, o.gone, o.at_end)
Move-IsClosing (begins t s) o = ground (arith, o.open_running, o.safe, o.gone, o.at_end)
Move-IsClosing (ends d s) o = ground (arith, o.open_running, o.safe, o.gone, o.at_end)
Move-IsClosing (sends gs r e) o = ground (arith, o.open_running, o.safe, o.gone, o.at_end)
Move-IsClosing (finishes before g after e) o =
    ground (arith, o.open_running, o.safe, o.gone, o.at_end)
Move-IsClosing (submits p q r e (st, n)) o =
    ground (arith, o.open_running, o.safe, o.gone, o.at_end, Step-staff st, Step-closed st n)
Move-IsClosing (panics p r e c) o = ground (arith, o.open_running, o.safe, o.gone, o.at_end)
Move-IsClosing (works p q e w) o =
    ground (arith, o.open_running, o.safe, o.gone, o.at_end, Step-staff w.0)
Move-IsClosing (stops_tickers d r) o = ground (arith, o.open_running, o.safe, o.gone, o.at_end)
Move-IsClosing (goroutines_gone f e) o = ground (arith, o.open_running, o.safe, o.gone, o.at_end)
Move-IsClosing (cancels p f e) o = ground (arith, o.open_running, o.safe, o.gone, o.at_end)
Move-IsClosing (closes p f e c n) o = ground (arith, o.open_running, o.safe, o.gone, o.at_end)
Move-IsClosing (workers_gone p f e c w n) o =
    ground (arith, o.open_running, o.safe, o.gone, o.at_end)
Move-IsClosing (returns f e) o = ground (arith, o.open_running, o.safe, o.gone, o.at_end)

Reach-IsClosing : {a b : Agent} → IsClosing a → Reach a b → IsClosing b
Reach-IsClosing o here = o
Reach-IsClosing o (next r (step c m)) = Move-IsClosing m (Reach-IsClosing o r)

launch-IsClosing :
    (cfg : AgentFlags) (app : App) → initialize cfg ≡ some app → IsClosing (launch app)
unfolding launch start
launch-IsClosing cfg app e = go app.sender refl
  where
    go : (s : MetricsSender) → app.sender ≡ s → IsClosing (launch app)
    go unlimited h = ground (arith, h)
    go (pooled pool) h =
        let (n, limit, positive, started) = initialize-pooled cfg app pool e h in
        ground (arith, h, ap (λ (p : WorkerPool). p.closed) started)

-- When `Wait` of an agent with a pool has returned, the reporter has ended and no worker is left, and
-- every report that was submitted has been sent or has failed, was dropped, or lies in the queue
-- for good.
pub pool_at_return :
    (cfg : AgentFlags) (app : App) (pool : WorkerPool) (a : Agent)
    → initialize cfg ≡ some app
    → app.sender ≡ pooled pool
    → Reach (launch app) a
    → a.phase ≡ returned
    → (p : WorkerPool) × (a.sending ≡ workers p)
      × (a.reporter ≡ ended)
      × (p.waiting ≡ 0)
      × (p.active_workers ≡ 0)
      × (p.submitted ≡ length p.tasks + p.processed_tasks + p.dropped_tasks)
pool_at_return cfg app pool a e s reached end =
    go a.sending refl
      (subst (λ x. Follows x a.sending) s (Reach-Follows app.sender (launch-Follows app) reached))
  where
    go :
        (t : Sending)
        → a.sending ≡ t
        → Follows (pooled pool) t
        → (p : WorkerPool) × (a.sending ≡ workers p)
          × (a.reporter ≡ ended)
          × (p.waiting ≡ 0)
          × (p.active_workers ≡ 0)
          × (p.submitted ≡ length p.tasks + p.processed_tasks + p.dropped_tasks)
    go (goroutines gs) h f = absurd f
    go (workers p) h r =
        let o = Reach-IsClosing (launch-IsClosing cfg app e) reached in
        let none_left = subst (λ x. staff x ≡ 0) h (o.gone (ground (arith, end))) in
        let (n, limit, positive, started) = initialize-pooled cfg app pool e s in
        let balanced =
          (start-IsBalanced n (n * 2) p (subst (λ x. Pool.Reach x p) started r)).accounted in
        (
          p,
          h,
          o.at_end end,
          omega (arith, none_left),
          omega (arith, none_left),
          omega (arith, balanced, none_left),
        )

-- An agent with a pool that runs and whose reporter is handing a report to it has not panicked, and
-- from every such state a signal can be followed by the panic of that report.
pub stop_can_panic :
    (cfg : AgentFlags) (app : App) (p : WorkerPool) (a : Agent)
    → initialize cfg ≡ some app
    → Reach (launch app) a
    → a.phase ≡ runs
    → a.reporter ≡ reports
    → a.sending ≡ workers p
    → (a.crashed ≡ false) × (b : Agent) × Reach a b × (b.crashed ≡ true)
stop_can_panic cfg app p a e reached running busy s =
    let o = Reach-IsClosing (launch-IsClosing cfg app e) reached in
    let fine = o.safe running in
    let cancelled : WorkerPool = record p { cancelled = true } in
    let closed : WorkerPool = record cancelled { closed = true } in
    (
      fine,
      _,
      next
          (next
            (next (next (next here (step fine signalled)) (step fine (stops_tickers refl running)))
              (step fine (cancels p refl s)))
            (step fine
              (closes cancelled refl refl refl (ground (arith, o.open_running running, s)))))
          (step fine (panics closed busy refl refl)),
      refl,
    )
