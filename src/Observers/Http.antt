-- ===== src/Observers/Http.antt =====
-- internal/observers/http_observer.go: the audit server. The client's `Do` is a step of a state `W`.
pub mod Sent
use go_musthave_metrics.Base.{ℕ, Bool, Option, none, some, ◌++◌, leb, if◌then◌else◌}
use go_musthave_metrics.Base.Text.{Text, codes}
use go_musthave_metrics.Base.Decimal.{decimal}
use go_musthave_metrics.Base.Results.{Error, Result, ok, err}
use go_musthave_metrics.Config.{ServerFlags, get_retry_delays_as_duration}
use go_musthave_metrics.Retry.{Duration, RetryConfig, retry_do}
use go_musthave_metrics.Agent.Client.{is_network_error}

-- `isNetworkError` has the text of the one in client.go.
pub record HttpObserver : Type 0 where
  pub url : Text
  pub retry_cfg : RetryConfig Error

unfoldable pub new_http_observer :
    (Text → Result Duration) → Text → ServerFlags → Result HttpObserver
new_http_observer parse_duration url cfg =
    elim (get_retry_delays_as_duration parse_duration cfg.retry_delays) [
      | err e ↦ err (codes "could not parse retry delays: " ++ e)
      | ok delays ↦ ok (record {
        url = url;
        retry_cfg = record {
          max_retries = cfg.max_retries;
          delays = some delays;
          is_retryable_fn = some is_network_error;
        };
      })
    ]

-- What an answer with that status makes of `op`. Client errors are only logged.
pub after_answer : ℕ → Option Error
after_answer status_code =
    if leb 500 status_code
    then some (codes "HTTP " ++ decimal status_code)
    else if leb 400 status_code
    then none
    else none

-- `http.NewRequest` on the URL, `client.Do` with its status, and the timer of the retries; the context
-- never ends.
pub record AuditServer (W : Type 0) : Type 0 where
  pub refuses : Text → Option Error
  pub answers : Text → Text → W → Result ℕ × W
  pub sleep : Duration → W → W

module _ {W : Type 0} (server : AuditServer W) where
  pub send_op : Text → Text → W → Option Error × W
  unfolding after_answer
  send_op url json_data w = elim (server.refuses url) [
    | some e ↦ (some (codes "failed to create request: " ++ e), w)
    | none ↦
        let (r, w') = server.answers url json_data w in
        (elim r [ err e ↦ some e | ok status_code ↦ after_answer status_code ], w')
  ]

  -- `sendEventAsync`, with the error that it logs.
  pub send_event : HttpObserver → Result Text → W → Option Error × W
  unfolding send_op
  send_event h (err e) w = (some e, w)
  send_event h (ok json_data) w =
      retry_do (λ w. none) (send_op h.url json_data) (λ w d. (none, server.sleep d w)) h.retry_cfg w
