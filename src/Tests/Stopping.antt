-- ===== src/Tests/Stopping.antt =====
-- The shutdown of an agent at concrete states.
use go_musthave_metrics.Base.{◌+◌, ◌≤◌, ◌≡◌, refl, true, false, List, [], ◌∷◌, length, All, arith}
use go_musthave_metrics.Base.Text.{str_eq, has_prefix}
use go_musthave_metrics.Agent.Client.{normalize_url}
use go_musthave_metrics.Agent.Pool.{WorkerPool, start, submit_sends, exits_cancelled}
use go_musthave_metrics.Agent.App.{App, unlimited, new_metrics_sender, initialize}
use go_musthave_metrics.Agent.Lifecycle.{
  Phase, waits_reporter, returned, reports, ended, goroutines, workers, Agent, launch, signalled,
  ticks, begins, ends, sends, submits, works, stops_tickers, goroutines_gone, cancels, closes,
  workers_gone, returns, step, Reach, here, next,
}
use go_musthave_metrics.Agent.Lifecycle.Stopped.{returned_leaves}
use go_musthave_metrics.Agent.Lifecycle.Pools.{pool_at_return, stop_can_panic}
use go_musthave_metrics.Agent.Lifecycle.Ends.{agent_can_stop}
use go_musthave_metrics.Tests.Agent.{agent_flags, agent_app}

abbrev unlimited_app : App
unlimited_app = record agent_app { sender = unlimited }

-- `Wait` has returned while the send of a late report runs.
abbrev left_behind : Agent
left_behind = record (launch unlimited_app) {
  done = true;
  phase = returned;
  reporter = ended;
  sending = goroutines (waits_reporter ∷ []);
}

late_report : Reach (launch unlimited_app) left_behind
unfolding launch
late_report =
    next
      (next
        (next
          (next
            (next
              (next (next (next here (step refl (ticks refl))) (step refl (begins refl refl)))
                (step refl signalled))
              (step refl (stops_tickers refl refl)))
            (step refl (goroutines_gone refl refl)))
          (step refl (sends [] refl refl)))
        (step refl (ends refl refl)))
      (step refl (returns refl refl))

returned_leaves_example :
    (gs : List Phase) × (left_behind.sending ≡ goroutines gs)
    × (length gs ≤ 1)
    × All (λ g. g ≡ waits_reporter) gs
    × (left_behind.reporter ≡ ended)
returned_leaves_example = returned_leaves unlimited_app left_behind refl late_report refl

-- A report is being handed over.
abbrev busy : Agent
busy = record (launch agent_app) { reporter = reports }

busy_reached : Reach (launch agent_app) busy
unfolding launch
busy_reached = next (next here (step refl (ticks refl))) (step refl (begins refl refl))

stop_can_panic_example : (false ≡ false) × (b : Agent) × Reach busy b × (b.crashed ≡ true)
unfolding launch initialize new_metrics_sender normalize_url has_prefix start str_eq
stop_can_panic_example =
    stop_can_panic agent_flags agent_app (start 2 4) busy refl busy_reached refl refl refl

agent_can_stop_example : (b : Agent) × Reach busy b × (b.phase ≡ returned)
unfolding launch initialize new_metrics_sender normalize_url has_prefix start str_eq
agent_can_stop_example = agent_can_stop agent_flags agent_app busy refl busy_reached refl

-- The workers have left a task in the queue.
abbrev abandoned : WorkerPool
abandoned = record (start 2 4) {
  tasks = 7 ∷ [];
  cancelled = true;
  closed = true;
  waiting = 0;
  submitted = 1;
}

abbrev left_queued : Agent
left_queued = record (launch agent_app) {
  done = true;
  phase = returned;
  reporter = ended;
  sending = workers abandoned;
}

workers_left : Reach (launch agent_app) left_queued
unfolding launch start
workers_left =
    next
      (next
        (next
          (next
            (next
              (next
                (next
                  (next
                    (next
                      (next busy_reached (
                        step refl
                          (submits _ _ refl refl (submit_sends 7 refl (omega arith), refl))))
                      (step refl signalled))
                    (step refl (stops_tickers refl refl)))
                  (step refl (ends refl refl)))
                (step refl (cancels _ refl refl)))
              (step refl
                (works _ _ refl (exits_cancelled (omega arith) refl, refl, refl, refl, refl))))
            (step refl
              (works _ _ refl (exits_cancelled (omega arith) refl, refl, refl, refl, refl))))
          (step refl (closes _ refl refl refl refl)))
        (step refl (workers_gone _ refl refl refl refl refl)))
      (step refl (returns refl refl))

pool_at_return_example :
    (p : WorkerPool) × (left_queued.sending ≡ workers p)
    × (left_queued.reporter ≡ ended)
    × (p.waiting ≡ 0)
    × (p.active_workers ≡ 0)
    × (p.submitted ≡ length p.tasks + p.processed_tasks + p.dropped_tasks)
unfolding initialize new_metrics_sender normalize_url has_prefix str_eq
pool_at_return_example =
    pool_at_return agent_flags agent_app (start 2 4) left_queued refl refl workers_left refl
