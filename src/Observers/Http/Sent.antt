-- ===== src/Observers/Http/Sent.antt =====
-- How often an event is sent to the audit server.
use go_musthave_metrics.Base.{
  ℕ, ◌≡◌, refl, ◌∙◌, inl, inr, Bool-cases, if◌then◌else◌, true, false, none, some, ◌++◌, leb, arith,
}
use go_musthave_metrics.Base.Text.{Text, codes}
use go_musthave_metrics.Base.Decimal.{decimal}
use go_musthave_metrics.Base.Results.{Error, Result, ok}
use go_musthave_metrics.Retry.{Duration, is_retryable}
use go_musthave_metrics.Retry.Attempts.{retry_do-refused, retry_do-first}
use go_musthave_metrics.Agent.Client.{is_network_error}
use go_musthave_metrics.Config.{ServerFlags}
use go_musthave_metrics.Observers.Http.{
  HttpObserver, AuditServer, new_http_observer, send_op, send_event, after_answer,
}
use go_musthave_metrics.Base.Decimal.Digits.{lacks, lacks-append, contains-lacks, decimal-lacks}

abbrev http_error : ℕ → Error
http_error n = codes "HTTP " ++ decimal n

lacks_o : (n : ℕ) → lacks b'o' (http_error n) ≡ true
unfolding lacks
lacks_o n = lacks-append b'o' (codes "HTTP ") (decimal n) refl (decimal-lacks b'o' n (omega arith))

is_network_error-http : (n : ℕ) → is_network_error (http_error n) ≡ false
unfolding is_network_error lacks
is_network_error-http n = ground (
  arith,
  contains-lacks b'o' (http_error n) (codes "connection refused") (lacks_o n) refl,
  contains-lacks b'o' (http_error n) (codes "timeout") (lacks_o n) refl,
  contains-lacks b'o' (http_error n) (codes "network") (lacks_o n) refl,
)

module _ {W : Type 0} (server : AuditServer W) (parse_duration : Text → Result Duration) where
  send_op-answered :
      (url json_data : Text) (n : ℕ) (w w' : W)
      → server.refuses url ≡ none
      → server.answers url json_data w ≡ (ok n, w')
      → send_op server url json_data w ≡ (after_answer n, w')
  unfolding send_op
  send_op-answered url json_data n w w' r a = ground (arith, r, a)

  made-is_retryable :
      (url : Text) (cfg : ServerFlags) (h : HttpObserver) (e : Error)
      → new_http_observer parse_duration url cfg ≡ ok h
      → is_retryable h.retry_cfg e ≡ is_network_error e
  unfolding new_http_observer is_retryable
  made-is_retryable url cfg h e made = ground (arith, made)

  -- An event that the audit server answers, with any status and at a URL that makes a request, is
  -- sent exactly once: a status of at least 500 is reported as an error and, in spite of what the
  -- code logs, not retried.
  pub answered_once :
      (url json_data : Text) (cfg : ServerFlags) (h : HttpObserver) (n : ℕ) (w w' : W)
      → new_http_observer parse_duration url cfg ≡ ok h
      → server.refuses h.url ≡ none
      → server.answers h.url json_data w ≡ (ok n, w')
      → send_event server h (ok json_data) w
        ≡ (if leb 500 n then some (codes "HTTP " ++ decimal n) else none, w')
  unfolding send_event send_op after_answer
  answered_once url json_data cfg h n w w' made r a = elim (Bool-cases (leb 500 n)) [
    | inl big ↦
        retry_do-refused _ _ _ h.retry_cfg w w' (http_error n) (ground (arith, r, a))
          (made-is_retryable url cfg h (http_error n) made ∙ is_network_error-http n)
        ∙ ground (arith, big)
    | inr small ↦
        retry_do-first _ _ _ h.retry_cfg w w' (ground (arith, r, a)) ∙ ground (arith, small)
  ]
