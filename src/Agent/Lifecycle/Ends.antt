-- ===== src/Agent/Lifecycle/Ends.antt =====
-- That an agent which has not panicked can always be stopped.
use go_musthave_metrics.Base.{
  ℕ, zero, suc, ◌+◌, ◌-◌, ◌*◌, ◌≤◌, ◌≡◌, refl, ◌∙◌, ◌⊎◌, inl, inr, true, false, some, List, [], ◌∷◌,
  length, Bool-cases, ltb, arith,
}
use mathlib.Core.Path.{subst}
use go_musthave_metrics.Config.{AgentFlags}
use go_musthave_metrics.Agent.Pool
use go_musthave_metrics.Agent.Pool.{
  WorkerPool, start, submit_sends, submit_cancelled, submit_full, finishes, exits_cancelled,
  stop_cancels, stop_closes,
}
use go_musthave_metrics.Agent.App.{App, initialize}
use go_musthave_metrics.Agent.Lifecycle.Pooled.{IsSound, agent-IsSound}
use go_musthave_metrics.Agent.Lifecycle.{
  Phase, runs, stops_sender, waits_reporter, returned, Loop, selects, reports, ended, Sending,
  goroutines, workers, Agent, launch, IsWork, Move, signalled, ends, sends, submits, works,
  stops_tickers, goroutines_gone, cancels, closes, workers_gone, returns, step, Reach, here, next,
}

append-Reach : {a b c : Agent} → Reach a b → Reach b c → Reach a c
append-Reach r here = r
append-Reach r (next q s) = next (append-Reach r q) s

-- A report that runs can be handed over.
can_submit :
    (p : WorkerPool)
    → (p.closed ≡ true → p.cancelled ≡ true)
    → (q : WorkerPool) × Pool.Step p q
      × (q.submitted ≡ p.submitted + 1)
      × (q.closed ≡ p.closed)
      × (q.cancelled ≡ p.cancelled)
can_submit p sound = elim (Bool-cases p.cancelled) [
  | inl c ↦ (_, submit_cancelled c, refl, refl, refl)
  | inr running ↦ elim (Bool-cases (ltb (length p.tasks) p.queue_size)) [
    | inl room ↦ (_, submit_sends 0 (ground (arith, sound)) (ground arith), refl, refl, refl)
    | inr full ↦ (_, submit_full (ground (arith, sound)) (ground arith) running, refl, refl, refl)
  ]
]

Loop-cases : (l : Loop) → (l ≡ selects) ⊎ ((l ≡ ended) ⊎ (l ≡ reports))
Loop-cases selects = inl refl
Loop-cases ended = inr (inl refl)
Loop-cases reports = inr (inr refl)

-- From here on: an agent that has not panicked, with a signal received.
report_ends :
    (a : Agent)
    → a.crashed ≡ false
    → a.done ≡ true
    → IsSound a.sending
    → (b : Agent) × Reach a b
      × (b.crashed ≡ false)
      × (b.done ≡ true)
      × (b.reporter ≡ ended)
      × (b.phase ≡ a.phase)
      × IsSound b.sending
report_ends a c d sound = elim (Loop-cases a.reporter) [
  | inl idle ↦ (_, next here (step c (ends d idle)), c, d, refl, refl, sound)
  | inr (inl gone) ↦ (a, here, c, d, gone, refl, sound)
  | inr (inr busy) ↦ hand_over a.sending refl sound busy
]
  where
    hand_over :
        (s : Sending)
        → a.sending ≡ s
        → IsSound s
        → a.reporter ≡ reports
        → (b : Agent) × Reach a b
          × (b.crashed ≡ false)
          × (b.done ≡ true)
          × (b.reporter ≡ ended)
          × (b.phase ≡ a.phase)
          × IsSound b.sending
    hand_over (goroutines gs) e f busy = (
      _,
      next (next here (step c (sends gs busy e))) (step c (ends d refl)),
      c,
      d,
      refl,
      refl,
      tt,
    )
    hand_over (workers p) e f busy =
        let (q, st, n, closed, cancelled) = can_submit p f in
        (
          _,
          next (next here (step c (submits p q busy e (st, n)))) (step c (ends d refl)),
          c,
          d,
          refl,
          refl,
          λ h. ground (arith, f, closed, cancelled, h),
        )

-- The goroutines may end one after the other.
goroutines_end :
    (gs : List Phase) (a : Agent)
    → a.crashed ≡ false
    → a.sending ≡ goroutines gs
    → Reach a (record a { sending = goroutines [] })
goroutines_end [] a c e = rw (← e) here
goroutines_end (g ∷ gs) a c e =
    append-Reach (next here (step c (Move.finishes [] g gs e)))
      (goroutines_end gs (record a { sending = goroutines gs }) c refl)

abbrev WorkersEnd : WorkerPool → Agent → Type 0
WorkersEnd p a =
    (q : WorkerPool) × Reach a (record a { sending = workers q })
    × (q.closed ≡ p.closed)
    × (q.waiting ≡ 0)
    × (q.active_workers ≡ 0)

after_work :
    (p p' : WorkerPool) (a : Agent)
    → a.crashed ≡ false
    → a.sending ≡ workers p
    → IsWork p p'
    → WorkersEnd p' (record a { sending = workers p' })
    → WorkersEnd p a
after_work p p' a c e w (q, r, closed, waiting, active) =
    (q, append-Reach (next here (step c (works p p' e w))) r, closed ∙ w.4, waiting, active)

-- The workers of a pool that is cancelled may finish what they run and leave.
workers_end :
    (n : ℕ) (p : WorkerPool) (a : Agent)
    → a.crashed ≡ false
    → a.sending ≡ workers p
    → p.cancelled ≡ true
    → p.active_workers * 2 + p.waiting ≤ n
    → WorkersEnd p a
workers_end zero p a c e l few = (p, rw (← e) here, refl, omega arith, omega arith)
workers_end (suc n) p a c e l few = elim (Bool-cases (ltb 0 p.active_workers)) [
  | inl busy ↦
      let p' : WorkerPool = record p {
        active_workers = p.active_workers - 1;
        processed_tasks = p.processed_tasks + 1;
        waiting = p.waiting + 1;
      } in
      after_work p p' a c e (finishes (ground arith), refl, refl, refl, refl)
        (workers_end n p' (record a { sending = workers p' }) c refl l (ground arith))
  | inr idle ↦ elim (Bool-cases (ltb 0 p.waiting)) [
    | inl some_wait ↦
        let p' : WorkerPool = record p { waiting = p.waiting - 1 } in
        after_work p p' a c e (exits_cancelled (ground arith) l, refl, refl, refl, refl)
          (workers_end n p' (record a { sending = workers p' }) c refl l (ground arith))
    | inr none_waits ↦ (p, rw (← e) here, refl, ground arith, ground arith)
  ]
]

pool_stops :
    (p : WorkerPool) (a : Agent)
    → a.sending ≡ workers p
    → a.crashed ≡ false
    → a.phase ≡ stops_sender
    → Reach a (record a { sending = workers (record p { cancelled = true; closed = true }) })
pool_stops p a e c h = elim (Bool-cases p.closed) [
  | inl closed ↦
      subst
        (λ x. Reach a (record a { sending = workers (record p { cancelled = true; closed = x }) }))
        closed (next here (step c (cancels p h e)))
  | inr open_channel ↦
      next (next here (step c (cancels p h e)))
        (step c (closes (record p { cancelled = true }) h refl refl open_channel))
]

-- `Stop` of the sender may return.
sender_stops :
    (s : Sending) (a : Agent)
    → a.sending ≡ s
    → IsSound s
    → a.crashed ≡ false
    → a.phase ≡ stops_sender
    → (t : Sending) × Reach a (record a { phase = waits_reporter; sending = t })
sender_stops (goroutines gs) a e f c h = (
  goroutines [],
  append-Reach (goroutines_end gs a c e) (next here (step c (goroutines_gone h refl))),
)
sender_stops (workers p) a e f c h =
    let stopped : WorkerPool = record p { cancelled = true; closed = true } in
    let (q, r, closed, waiting, active) =
      workers_end (stopped.active_workers * 2 + stopped.waiting) stopped
        (record a { sending = workers stopped }) c refl refl (omega arith) in
    (
      workers q,
      append-Reach (append-Reach (pool_stops p a e c h) r)
          (next here (step c (workers_gone q h refl closed waiting active))),
    )

-- In `Wait`, once the reporter has ended.
wait_ends :
    (f : Phase) (a : Agent)
    → a.phase ≡ f
    → a.crashed ≡ false
    → a.done ≡ true
    → a.reporter ≡ ended
    → IsSound a.sending
    → (b : Agent) × Reach a b × (b.phase ≡ returned)
wait_ends returned a h c d r sound = (a, here, h)
wait_ends waits_reporter a h c d r sound = (_, next here (step c (returns h r)), refl)
wait_ends stops_sender a h c d r sound =
    let (t, reached) = sender_stops a.sending a refl sound c h in
    (_, next reached (step c (returns refl r)), refl)
wait_ends runs a h c d r sound =
    let stopping : Agent = record a { phase = stops_sender; tick = false } in
    let (t, reached) = sender_stops a.sending stopping refl sound c refl in
    (
      _,
      next (append-Reach (next here (step c (stops_tickers d h))) reached)
          (step c (returns refl r)),
      refl,
    )

-- Whatever the configuration and the interleaving, from every state that an initialized agent can
-- reach without a panic of its reporter, a signal can be followed by the return of `Wait`.
pub agent_can_stop :
    (cfg : AgentFlags) (app : App) (a : Agent)
    → initialize cfg ≡ some app
    → Reach (launch app) a
    → a.crashed ≡ false
    → (b : Agent) × Reach a b × (b.phase ≡ returned)
agent_can_stop cfg app a e reached c =
    let sound = agent-IsSound cfg app a e reached in
    let (b, r1, c1, d1, gone, same, sound1) = report_ends (record a { done = true }) c refl sound in
    let (z, r2, end) = wait_ends b.phase b refl c1 d1 gone sound1 in
    (z, append-Reach (next here (step c signalled)) (append-Reach r1 r2), end)
