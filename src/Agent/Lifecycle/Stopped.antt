-- ===== src/Agent/Lifecycle/Stopped.antt =====
-- What an agent with the unlimited sender leaves behind when `Wait` has returned.
use go_musthave_metrics.Base.{
  ℕ, ◌+◌, ◌≤◌, ◌≡◌, ◌≢◌, refl, Bool, true, false, List, [], ◌∷◌, ◌++◌, length, length-append, All,
  arith,
}
use go_musthave_metrics.Agent.App.{App, unlimited}
use go_musthave_metrics.Agent.Lifecycle.{
  Phase, runs, stops_sender, waits_reporter, returned, Loop, selects, reports, ended, Sending,
  goroutines, workers, Agent, launch, Move, signalled, ticks, begins, ends, sends, finishes,
  submits, panics, works, stops_tickers, goroutines_gone, cancels, closes, workers_gone, returns,
  step, Reach, here, next,
}

module _ (w : Phase → ℕ) where
  abbrev count : List Phase → ℕ
  count [] = 0
  count (g ∷ gs) = w g + count gs

  count-append : (xs ys : List Phase) → count (xs ++ ys) ≡ count xs + count ys
  count-append [] ys = omega arith
  count-append (x ∷ xs) ys = omega (arith, count-append xs ys)

-- `Send` was called in `Wait`; it was called when `Stop` of the sender had returned.
abbrev late : Phase → ℕ
late runs = 0
late stops_sender = 1
late waits_reporter = 1
late returned = 1

abbrev after_stop : Phase → ℕ
after_stop runs = 0
after_stop stops_sender = 0
after_stop waits_reporter = 1
after_stop returned = 0

count-after_stop-le : (gs : List Phase) → count after_stop gs ≤ length gs
count-after_stop-le [] = omega arith
count-after_stop-le (runs ∷ gs) = omega (arith, count-after_stop-le gs)
count-after_stop-le (stops_sender ∷ gs) = omega (arith, count-after_stop-le gs)
count-after_stop-le (waits_reporter ∷ gs) = omega (arith, count-after_stop-le gs)
count-after_stop-le (returned ∷ gs) = omega (arith, count-after_stop-le gs)

each_after_stop :
    (gs : List Phase)
    → length gs ≡ count after_stop gs
    → All (λ g. g ≡ waits_reporter) gs × (count late gs ≡ length gs)
each_after_stop [] h = (tt, refl)
each_after_stop (waits_reporter ∷ gs) h =
    let (all, late_too) = each_after_stop gs (omega arith) in ((refl, all), omega (arith, late_too))
each_after_stop (runs ∷ gs) h = absurd (omega (arith, count-after_stop-le gs))
each_after_stop (stops_sender ∷ gs) h = absurd (omega (arith, count-after_stop-le gs))
each_after_stop (returned ∷ gs) h = absurd (omega (arith, count-after_stop-le gs))

-- The sends that run.
abbrev running : Sending → List Phase
running (goroutines gs) = gs
running (workers p) = []

-- The report that runs.
abbrev to_come : Loop → ℕ
to_come selects = 0
to_come reports = 1
to_come ended = 0

-- Whether `Stop` of the sender has returned.
abbrev is_past : Phase → Bool
is_past runs = false
is_past stops_sender = false
is_past waits_reporter = true
is_past returned = true

abbrev is_unlimited : Sending → Bool
is_unlimited (goroutines gs) = true
is_unlimited (workers p) = false

record IsOrdered (a : Agent) : Type 0 where
  kind : is_unlimited a.sending ≡ true
  no_tick : a.phase ≢ runs → a.tick ≡ false
  none_early : a.phase ≡ runs → count late (running a.sending) ≡ 0
  few : a.phase ≢ runs → count late (running a.sending) + to_come a.reporter ≤ 1
  only_after :
      is_past a.phase ≡ true → length (running a.sending) ≡ count after_stop (running a.sending)
  at_end : a.phase ≡ returned → a.reporter ≡ ended

Move-IsOrdered : {a b : Agent} → Move a b → IsOrdered a → IsOrdered b
Move-IsOrdered signalled o =
    ground (arith, o.kind, o.no_tick, o.none_early, o.few, o.only_after, o.at_end)
Move-IsOrdered (ticks r) o =
    ground (arith, o.kind, o.no_tick, o.none_early, o.few, o.only_after, o.at_end)
Move-IsOrdered (begins t s) o =
    ground (arith, o.kind, o.no_tick, o.none_early, o.few, o.only_after, o.at_end)
Move-IsOrdered (ends d s) o =
    ground (arith, o.kind, o.no_tick, o.none_early, o.few, o.only_after, o.at_end)
Move-IsOrdered (sends gs r e) o =
    ground (arith, o.kind, o.no_tick, o.none_early, o.few, o.only_after, o.at_end)
Move-IsOrdered (finishes before g after e) o = ground (
  arith,
  o.kind,
  o.no_tick,
  o.none_early,
  o.few,
  o.only_after,
  o.at_end,
  length-append {0} before (g ∷ after),
  length-append {0} before after,
  count-append late before (g ∷ after),
  count-append late before after,
  count-append after_stop before (g ∷ after),
  count-append after_stop before after,
  count-after_stop-le before,
  count-after_stop-le after,
)
Move-IsOrdered (submits p q r e st) o =
    ground (arith, o.kind, o.no_tick, o.none_early, o.few, o.only_after, o.at_end)
Move-IsOrdered (panics p r e c) o =
    ground (arith, o.kind, o.no_tick, o.none_early, o.few, o.only_after, o.at_end)
Move-IsOrdered (works p q e w) o =
    ground (arith, o.kind, o.no_tick, o.none_early, o.few, o.only_after, o.at_end)
Move-IsOrdered (stops_tickers d r) o =
    ground (arith, o.kind, o.no_tick, o.none_early, o.few, o.only_after, o.at_end)
Move-IsOrdered (goroutines_gone f e) o =
    ground (arith, o.kind, o.no_tick, o.none_early, o.few, o.only_after, o.at_end)
Move-IsOrdered (cancels p f e) o =
    ground (arith, o.kind, o.no_tick, o.none_early, o.few, o.only_after, o.at_end)
Move-IsOrdered (closes p f e c n) o =
    ground (arith, o.kind, o.no_tick, o.none_early, o.few, o.only_after, o.at_end)
Move-IsOrdered (workers_gone p f e c w n) o =
    ground (arith, o.kind, o.no_tick, o.none_early, o.few, o.only_after, o.at_end)
Move-IsOrdered (returns f e) o =
    ground (arith, o.kind, o.no_tick, o.none_early, o.few, o.only_after, o.at_end)

Reach-IsOrdered : {a b : Agent} → IsOrdered a → Reach a b → IsOrdered b
Reach-IsOrdered o here = o
Reach-IsOrdered o (next r (step c m)) = Move-IsOrdered m (Reach-IsOrdered o r)

launch-IsOrdered : (app : App) → app.sender ≡ unlimited → IsOrdered (launch app)
unfolding launch
launch-IsOrdered app e = ground (arith, e)

-- When `Wait` of an agent with the unlimited sender has returned, the reporter has ended, and at most
-- one send still runs: it is of a report that called `Send` after `Stop` of the sender had returned.
pub returned_leaves :
    (app : App) (a : Agent)
    → app.sender ≡ unlimited
    → Reach (launch app) a
    → a.phase ≡ returned
    → (gs : List Phase) × (a.sending ≡ goroutines gs)
      × (length gs ≤ 1)
      × All (λ g. g ≡ waits_reporter) gs
      × (a.reporter ≡ ended)
returned_leaves app a e r end =
    let o = Reach-IsOrdered (launch-IsOrdered app e) r in
    let (all, same) = each_after_stop (running a.sending) (o.only_after (ground (arith, end))) in
    (running a.sending, ground (arith, o.kind), ground (arith, o.few, same, end), all, o.at_end end)
