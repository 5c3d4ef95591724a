-- ===== src/Tests/Client.antt =====
-- The agent and the retries at concrete values. A float is a number here.
use go_musthave_metrics.Base.{
  ℕ, ◌+◌, ◌≡◌, ◌≢◌, refl, sym, ap, true, Option, none, some, [], ◌∷◌, ◌++◌, arith, ◌==◌,
  if◌then◌else◌,
}
use go_musthave_metrics.Base.Text.{Text, codes, str_eq}
use go_musthave_metrics.Base.Maps.{GoMap, lookup}
use go_musthave_metrics.Base.Ints.{pos}
use go_musthave_metrics.Base.Results.{Error, Result, ok, err}
use go_musthave_metrics.Retry.{RetryConfig, Duration, is_retryable, retry_do}
use go_musthave_metrics.Retry.Attempts.{Counts}
use go_musthave_metrics.Retry.Exhaust.{retry_do_exhausts}
use go_musthave_metrics.Storage.Mem.{MemStorage, update_metrics, get_counter, get_gauge}
use go_musthave_metrics.Storage.Mem.Batch.{counted}
use go_musthave_metrics.Handler.Compress.{Gzip}
use go_musthave_metrics.Agent.Sender.{batch}
use go_musthave_metrics.Agent.Sender.Delivery.{poll_count, delivered_batch}
use go_musthave_metrics.Agent.Client.{process_request, Outgoing}
use go_musthave_metrics.Agent.Client.Accepted.{ReadsBack, received, agent_request_accepted}

-- The environment of a retried operation: how often it was called.
abbrev no_ctx_error : ℕ → Option Error
no_ctx_error s = none

abbrev always_fails : ℕ → Option Error × ℕ
always_fails s = (some (codes "timeout"), s + 1)

abbrev waits : ℕ → Duration → Option Error × ℕ
waits s d = (none, s)

abbrev two_retries : RetryConfig Error
two_retries = record { max_retries = pos 2; delays = none; is_retryable_fn = some (λ e. true) }

abbrev counts : Counts no_ctx_error always_fails waits (λ s. s)
counts = record { called = λ s. refl; waited = λ s d. refl }

retry_do_exhausts_example :
    ((retry_do no_ctx_error always_fails waits two_retries 4).1 ≡ 4 + 3)
    × ((retry_do no_ctx_error always_fails waits two_retries 4).0 ≢ none)
unfolding is_retryable
retry_do_exhausts_example =
    retry_do_exhausts no_ctx_error always_fails waits (λ s. s) counts two_retries
      (record {
        error = λ s. codes "timeout";
        fails = λ s. refl;
        again = λ s. refl;
        lasts = λ s d. refl;
      })
      4

abbrev succeeds : ℕ → Option Error × ℕ
succeeds s = (none, s + 1)

abbrev store : MemStorage ℕ
store = record { counters = (poll_count, 3) ∷ []; gauges = [] }

abbrev report : GoMap ℕ
report = (codes "Alloc", 1) ∷ (codes "Sys", 2) ∷ []

delivered_batch_example :
    (get_gauge (update_metrics store (batch report 5)) (codes "Sys")
      ≡ elim (lookup (codes "Sys") report) [
        | some v ↦ some v
        | none ↦ get_gauge store (codes "Sys")
      ])
    × (get_counter (update_metrics store (batch report 5)) (codes "Sys")
        ≡ counted
            (get_counter store (codes "Sys"))
            (if 5 == 0 then [] else if str_eq poll_count (codes "Sys") then 5 ∷ [] else []))
unfolding lookup str_eq
delivered_batch_example =
    delivered_batch store report 5 (codes "Sys") (refl, (refl, tt)) (omega arith)

-- A compression that puts one byte in front.
abbrev marks : Text → Result Text
marks t = ok (1 ∷ t)

abbrev unmark : Text → Result Text
unmark [] = err (codes "empty")
unmark (c ∷ t) = ok t

abbrev marking : Gzip
marking = record { opens = λ t. none; gunzip = unmark; gzip_text = λ t. 1 ∷ t }

abbrev unmarked : Result Text → Result Text
unmarked (ok z) = unmark z
unmarked (err e) = err e

abbrev marking-ReadsBack : ReadsBack marking marks
marking-ReadsBack = record { opened = λ t z e. refl; inflated = λ t z e. ap unmarked (sym e) }

abbrev reverse_mark : Text → Text
reverse_mark t = 2 ∷ t

abbrev json : Text
json = codes "[{\"id\":\"PollCount\",\"type\":\"counter\",\"delta\":5}]"

abbrev sent : Outgoing
sent = record {
  body = 1 ∷ json;
  content_type = codes "application/json";
  content_encoding = codes "gzip";
  hash_sha256 = 2 ∷ codes "key" ++ json;
}

agent_request_accepted_example :
    received reverse_mark marking (some (codes "key")) sent ≡ some (ok json)
unfolding process_request
agent_request_accepted_example =
    agent_request_accepted reverse_mark marking marks marking-ReadsBack (some (codes "key")) json
      sent refl
