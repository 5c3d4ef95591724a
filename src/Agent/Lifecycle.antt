-- ===== src/Agent/Lifecycle.antt =====
-- `Run` and `Wait` of internal/agent/app.go, with `Start` and `Stop` of
-- internal/agent/reporter/metrics_reporter.go, and `Send` and `Stop` of the two senders of
-- internal/agent/sender, as steps of the goroutines that may interleave. `Stop` of the collector only
-- stops its ticker, and nothing waits for its goroutine, whose rounds are those of Agent.Reporter.
pub mod Stopped
pub mod Pooled
pub mod Ends
pub mod Pools
use go_musthave_metrics.Base.{ℕ, ◌+◌, ◌≡◌, Bool, true, false, List, [], ◌∷◌, ◌++◌}
use go_musthave_metrics.Agent.Pool
use go_musthave_metrics.Agent.Pool.{WorkerPool}
use go_musthave_metrics.Agent.App.{App, MetricsSender, pooled, unlimited}

-- Where `main` is: in `Run`; in `Stop` of the reporter, with its ticker stopped, at `Stop` of the
-- sender; at the wait for the reporter's goroutine; after `Wait`.
pub data Phase : Type 0 where
  runs stops_sender waits_reporter returned : Phase

-- The reporter's goroutine: at its select, in `report`, or gone.
pub data Loop : Type 0 where
  selects reports ended : Loop

-- The goroutines of an unlimited sender, each with the phase in which its `Send` was called; or a
-- worker pool.
pub data Sending : Type 0 where
  goroutines : List Phase → Sending
  workers : WorkerPool → Sending

pub record Agent : Type 0 where
  pub done : Bool
  pub phase : Phase
  -- the reporter's ticker has a tick to give
  pub tick : Bool
  pub reporter : Loop
  pub sending : Sending
  -- a send on the closed channel of the pool has panicked
  pub crashed : Bool

abbrev sending_of : MetricsSender → Sending
sending_of (pooled pool) = workers pool
sending_of unlimited = goroutines []

-- `Run`, up to `<-ctx.Done()`.
unfoldable pub launch : App → Agent
launch app = record {
  done = false;
  phase = runs;
  tick = false;
  reporter = selects;
  sending = sending_of app.sender;
  crashed = false;
}

-- What the workers do by themselves: neither a `Submit` nor a line of `Stop`.
abbrev pub IsWork : WorkerPool → WorkerPool → Type 0
IsWork p q =
    Pool.Step p q
    × (q.submitted ≡ p.submitted)
    × (q.panicked ≡ p.panicked)
    × (q.cancelled ≡ p.cancelled)
    × (q.closed ≡ p.closed)

-- `Send` of the unlimited sender starts a goroutine.
abbrev pub send_unlimited : Phase → List Phase → List Phase
send_unlimited phase gs = phase ∷ gs

-- `Send` of the pooled sender is a `Submit` that returns, with the task in the queue or dropped.
abbrev pub Submits : WorkerPool → WorkerPool → Type 0
Submits p q = Pool.Step p q × (q.submitted ≡ p.submitted + 1)

pub data Move (a : Agent) : Agent → Type 0 where
  signalled : Move a (record a { done = true })
  ticks : a.phase ≡ runs → Move a (record a { tick = true })
  -- the select of the reporter; when both cases are ready, either may be chosen
  begins :
      a.tick ≡ true → a.reporter ≡ selects → Move a (record a { tick = false; reporter = reports })
  ends : a.done ≡ true → a.reporter ≡ selects → Move a (record a { reporter = ended })
  -- `Send` of the unlimited sender, and the end of one of its goroutines
  sends :
      (gs : List Phase)
      → a.reporter ≡ reports
      → a.sending ≡ goroutines gs
      → Move a (record a { reporter = selects; sending = goroutines (send_unlimited a.phase gs) })
  finishes :
      (before : List Phase) (g : Phase) (after : List Phase)
      → a.sending ≡ goroutines (before ++ g ∷ after)
      → Move a (record a { sending = goroutines (before ++ after) })
  -- `Send` of the pooled sender: a `Submit` that returns, or its panic; and the workers
  submits :
      (p q : WorkerPool)
      → a.reporter ≡ reports
      → a.sending ≡ workers p
      → Submits p q
      → Move a (record a { reporter = selects; sending = workers q })
  panics :
      (p : WorkerPool)
      → a.reporter ≡ reports
      → a.sending ≡ workers p
      → p.closed ≡ true
      → Move a (record a { crashed = true })
  works :
      (p q : WorkerPool)
      → a.sending ≡ workers p
      → IsWork p q
      → Move a (record a { sending = workers q })
  -- `Wait`: the tickers are stopped; a ticker of Go 1.23 gives no tick after that
  stops_tickers :
      a.done ≡ true → a.phase ≡ runs → Move a (record a { phase = stops_sender; tick = false })
  -- `Stop` of the unlimited sender returns
  goroutines_gone :
      a.phase ≡ stops_sender
      → a.sending ≡ goroutines []
      → Move a (record a { phase = waits_reporter })
  -- the lines of `Stop` of the pool, and its return
  cancels :
      (p : WorkerPool)
      → a.phase ≡ stops_sender
      → a.sending ≡ workers p
      → Move a (record a { sending = workers (record p { cancelled = true }) })
  closes :
      (p : WorkerPool)
      → a.phase ≡ stops_sender
      → a.sending ≡ workers p
      → p.cancelled ≡ true
      → p.closed ≡ false
      → Move a (record a { sending = workers (record p { closed = true }) })
  workers_gone :
      (p : WorkerPool)
      → a.phase ≡ stops_sender
      → a.sending ≡ workers p
      → p.closed ≡ true
      → p.waiting ≡ 0
      → p.active_workers ≡ 0
      → Move a (record a { phase = waits_reporter })
  -- the reporter's `wg.Wait()` returns
  returns : a.phase ≡ waits_reporter → a.reporter ≡ ended → Move a (record a { phase = returned })

-- A panic ends the program.
pub data Step (a : Agent) : Agent → Type 0 where
  step : {b : Agent} → a.crashed ≡ false → Move a b → Step a b

pub data Reach (a : Agent) : Agent → Type 0 where
  here : Reach a a
  next : {b c : Agent} → Reach a b → Step b c → Reach a c
