-- ===== src/Agent/Lifecycle/Pooled.antt =====
-- That what the agent does with its pool are steps of the pool.
use go_musthave_metrics.Base.{◌*◌, ◌≡◌, refl, true, some, List, ◌∷◌, ◌++◌}
use mathlib.Core.Path.{subst}
use go_musthave_metrics.Config.{AgentFlags}
use go_musthave_metrics.Agent.Pool
use go_musthave_metrics.Agent.Pool.{
  WorkerPool, start, submit_sends, submit_cancelled, submit_full, finishes, exits_cancelled,
  stop_cancels, stop_closes,
}
use go_musthave_metrics.Agent.Pool.Tasks.{start-IsBalanced}
use go_musthave_metrics.Agent.App.{App, MetricsSender, pooled, unlimited, initialize}
use go_musthave_metrics.Agent.App.Senders.{initialize-pooled}
use go_musthave_metrics.Agent.Lifecycle.{
  Phase, Sending, goroutines, workers, Agent, launch, sending_of, Move, signalled, ticks, begins,
  ends, sends, submits, panics, works, stops_tickers, goroutines_gone, cancels, closes,
  workers_gone, returns, step, Reach, here, next,
}

-- The agent does with its pool only what the pool does by itself.
abbrev pub Follows : MetricsSender → Sending → Type 0
Follows unlimited (goroutines gs) = Unit
Follows unlimited (workers p) = ⊥
Follows (pooled pool) (goroutines gs) = ⊥
Follows (pooled pool) (workers p) = Pool.Reach pool p

followed :
    (s : MetricsSender) (t : Sending) (p q : WorkerPool)
    → t ≡ workers p
    → Pool.Step p q
    → Follows s t
    → Follows s (workers q)
followed s t p q e st f = go s (subst (Follows s) e f)
  where
    go : (s : MetricsSender) → Follows s (workers p) → Follows s (workers q)
    go unlimited f = f
    go (pooled pool) r = Pool.next r st

kept :
    (s : MetricsSender) (t : Sending) (gs hs : List Phase)
    → t ≡ goroutines gs
    → Follows s t
    → Follows s (goroutines hs)
kept s t gs hs e f = go s (subst (Follows s) e f)
  where
    go : (s : MetricsSender) → Follows s (goroutines gs) → Follows s (goroutines hs)
    go unlimited f = f
    go (pooled pool) f = f

Move-Follows :
    {a b : Agent} (s : MetricsSender) → Move a b → Follows s a.sending → Follows s b.sending
Move-Follows s signalled f = f
Move-Follows s (ticks r) f = f
Move-Follows s (begins t e) f = f
Move-Follows s (ends d e) f = f
Move-Follows {a} s (sends gs r e) f = kept s a.sending gs (a.phase ∷ gs) e f
Move-Follows {a} s (Move.finishes before g after e) f =
    kept s a.sending (before ++ g ∷ after) (before ++ after) e f
Move-Follows {a} s (submits p q r e st) f = followed s a.sending p q e st.0 f
Move-Follows s (panics p r e c) f = f
Move-Follows {a} s (works p q e w) f = followed s a.sending p q e w.0 f
Move-Follows s (stops_tickers d r) f = f
Move-Follows s (goroutines_gone r e) f = f
Move-Follows {a} s (cancels p r e) f =
    followed s a.sending p (record p { cancelled = true }) e stop_cancels f
Move-Follows {a} s (closes p r e c n) f =
    followed s a.sending p (record p { closed = true }) e (stop_closes c n) f
Move-Follows s (workers_gone p r e c w n) f = f
Move-Follows s (returns r e) f = f

pub Reach-Follows :
    {a b : Agent} (s : MetricsSender) → Follows s a.sending → Reach a b → Follows s b.sending
Reach-Follows s f here = f
Reach-Follows s f (next r (step c m)) = Move-Follows s m (Reach-Follows s f r)

-- A pool that is closed is cancelled.
abbrev pub IsSound : Sending → Type 0
IsSound (goroutines gs) = Unit
IsSound (workers p) = p.closed ≡ true → p.cancelled ≡ true

pub launch-Follows : (app : App) → Follows app.sender (launch app).sending
unfolding launch
launch-Follows app = go app.sender
  where
    go : (s : MetricsSender) → Follows s (sending_of s)
    go unlimited = tt
    go (pooled pool) = Pool.here

pub agent-IsSound :
    (cfg : AgentFlags) (app : App) (a : Agent)
    → initialize cfg ≡ some app
    → Reach (launch app) a
    → IsSound a.sending
agent-IsSound cfg app a e reached =
    go app.sender a.sending refl (Reach-Follows app.sender (launch-Follows app) reached)
  where
    go : (s : MetricsSender) (t : Sending) → app.sender ≡ s → Follows s t → IsSound t
    go unlimited (goroutines gs) h f = tt
    go unlimited (workers p) h f = absurd f
    go (pooled pool) (goroutines gs) h f = tt
    go (pooled pool) (workers p) h r =
        let (n, limit, positive, started) = initialize-pooled cfg app pool e h in
        (start-IsBalanced n (n * 2) p (subst (λ x. Pool.Reach x p) started r)).closed_last
