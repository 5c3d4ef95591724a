-- ===== src/Agent/Reporter.antt =====
-- internal/agent/reporter/metrics_reporter.go with `Send` of internal/agent/sender/metrics_sender.go
-- and unlimited_sender.go, beside the collector's goroutine. Each call of the collector holds its
-- mutex, so rounds may fall between `GetMetrics`, `Send` and `ResetCount` of one
-- report. `Send` returns nil
-- whatever becomes of the task, so a report always resets the count.
pub mod Polls
use go_musthave_metrics.Base.{ℕ, ◌+◌, ◌≡◌, Bool, true, false, Option, none, some, List, [], ◌∷◌}
use go_musthave_metrics.Base.Results.{Result}
use go_musthave_metrics.Model.Memory.{MemoryMetrics}
use go_musthave_metrics.Agent.Collector.{
  Collector, collect_from_all_providers, get_metrics, reset_count,
}

-- `rounds` counts the rounds so far, `counts` are those given to `Send`, newest first, `held` is
-- the count that a running report has read, and `sent` whether it has given it to `Send`.
pub record Reporting (F : Type 0) : Type 0 where
  pub collector : Collector F
  pub rounds : ℕ
  pub held : Option ℕ
  pub sent : Bool
  pub counts : List ℕ

module _ {F : Type 0} (is_nonzero : F → Bool) where
  pub data Step (r : Reporting F) : Reporting F → Type 0 where
    polls :
        (rs : List (Result (MemoryMetrics F)))
        → Step r (record r {
          collector = collect_from_all_providers is_nonzero r.collector rs;
          rounds = r.rounds + 1;
        })
    -- the first line of `report`, of the reporter's only goroutine
    reads :
        r.held ≡ none
        → Step r (record r { held = some (get_metrics is_nonzero r.collector).1; sent = false })
    -- `mr.sender.Send`, and then `mr.collector.ResetCount`
    sends :
        (n : ℕ)
        → r.held ≡ some n
        → r.sent ≡ false
        → Step r (record r { sent = true; counts = n ∷ r.counts })
    resets :
        (n : ℕ)
        → r.held ≡ some n
        → r.sent ≡ true
        → Step r
            (record r { collector = reset_count is_nonzero r.collector; held = none; sent = false })

  pub data Reach (r : Reporting F) : Reporting F → Type 0 where
    here : Reach r r
    next : {s t : Reporting F} → Reach r s → Step s t → Reach r t
