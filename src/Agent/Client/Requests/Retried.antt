-- ===== src/Agent/Client/Requests/Retried.antt =====
-- What `Post` and `Get` return, over all their attempts.
use go_musthave_metrics.Base.{
  ◌≡◌, ◌∙◌, refl, ap, sym, false, Option, none, some, List, [], inl, inr,
}
use go_musthave_metrics.Base.Text.{Text}
use go_musthave_metrics.Base.Results.{Error, Result, ok, err, Result-cases}
use go_musthave_metrics.Config.{AgentFlags, get_retry_delays_as_duration}
use go_musthave_metrics.Retry.{Duration, is_retryable, retry_do}
use go_musthave_metrics.Retry.Attempts.{Outcome, retry_do_rule, retry_do-first, retry_do-refused}
use go_musthave_metrics.Agent.Client.{RequestProcessor, is_network_error}
use go_musthave_metrics.Agent.Client.Requests.{
  Network, do_request, request_op, client_retries, response_of, set_response, with_delays,
  do_request_with_retry,
}

module _ {S : Type 0} (call : S → Result Text × S) where
  -- Some call of `call` has ended like this.
  abbrev Answered : S × Text → Type 0
  Answered (s, t) = (s0 : S) × (call s0 ≡ (ok t, s))

  abbrev Anywhere : S × Text → Type 0
  Anywhere u = Unit {0}

  request_op-Answered : (s : S) (t : Text) → Outcome Anywhere Answered (request_op call (s, t))
  unfolding request_op
  request_op-Answered s t = go (call s) refl
    where
      go :
          (r : Result Text × S)
          → call s ≡ r
          → Outcome {E = Error} Anywhere Answered (set_response t r)
      go (ok u, s') e = (s, e)
      go (err x, s') e = tt

module _ {S : Type 0} (net : Network S) (sha256_hex : Text → Text)
    (gzip gunzip : Text → Result Text) (parse_duration : Text → Result Duration) (cfg : AgentFlags)
    (rp : RequestProcessor) (base_url method endpoint : Text) (body : Option (Result Text)) where
  abbrev pub once : S → Result Text × S
  once = do_request net sha256_hex gzip gunzip rp base_url method endpoint body

  abbrev pub with_retry : S → Result Text × S
  with_retry =
      do_request_with_retry net sha256_hex gzip gunzip parse_duration cfg rp base_url method
        endpoint body

  response_of-Answered :
      (r : Option Error × (S × Text)) (t : Text) (s' : S)
      → Outcome (λ u. Unit {0}) (Answered once) r
      → response_of r ≡ (ok t, s')
      → (s0 : S) × (once s0 ≡ (ok t, s'))
  response_of-Answered (none, (s, u)) t s' (s0, e) q = (s0, e ∙ q)
  response_of-Answered (some x, (s, u)) t s' o q = absurd (cc (ap (λ r. r.0) q))

  attempts : List Duration → S → Option Error × (S × Text)
  attempts delays s =
      retry_do (λ (t : S × Text). net.ctx_err t.0) (request_op once)
        (λ (t : S × Text) d. let (c, u) = net.wait t.0 d in (c, (u, t.1)))
        (client_retries cfg.max_retries delays) (s, [])

  abbrev parsed : Result (List Duration)
  parsed = get_retry_delays_as_duration parse_duration cfg.retry_delays

  with_retry-ok :
      (s : S) (delays : List Duration)
      → parsed ≡ ok delays
      → with_retry s ≡ response_of (attempts delays s)
  unfolding do_request_with_retry with_delays attempts
  with_retry-ok s delays p =
      ap (λ r. with_delays net sha256_hex gzip gunzip parse_duration cfg.max_retries once r s) p

  with_retry-err : (s : S) (e : Error) → parsed ≡ err e → with_retry s ≡ (err e, s)
  unfolding do_request_with_retry with_delays
  with_retry-err s e p =
      ap (λ r. with_delays net sha256_hex gzip gunzip parse_duration cfg.max_retries once r s) p

  attempts-Answered :
      (delays : List Duration) (s : S) → Outcome (λ u. Unit {0}) (Answered once) (attempts delays s)
  unfolding attempts
  attempts-Answered delays s =
      retry_do_rule _ _ _ (λ u. Unit {0}) (Answered once)
        (record { calls = λ (u, x) q. request_op-Answered once u x; waits = λ u d q. tt })
        (client_retries cfg.max_retries delays) (s, []) tt

  -- What `Post` and `Get` return without an error is what one of their calls of `doRequest` has
  -- returned without an error, in the state that this call has left.
  pub do_request_with_retry-ok :
      (s s' : S) (t : Text) → with_retry s ≡ (ok t, s') → (s0 : S) × (once s0 ≡ (ok t, s'))
  do_request_with_retry-ok s s' t e = elim (Result-cases parsed) [
    | inl (ds, p) ↦
        response_of-Answered (attempts ds s) t s' (attempts-Answered ds s)
          (sym (with_retry-ok s ds p) ∙ e)
    | inr (x, p) ↦ absurd (cc (ap (λ r. r.0) (sym (with_retry-err s x p) ∙ e)))
  ]

  -- With retry delays that parse, a first call of `doRequest` that succeeds, or that fails with a
  -- message that names neither a refused connection nor a timeout nor the network, is the only one.
  pub do_request_with_retry-final :
      (s s' : S) (r : Result Text) (delays : List Duration)
      → get_retry_delays_as_duration parse_duration cfg.retry_delays ≡ ok delays
      → once s ≡ (r, s')
      → ((e : Error) → r ≡ err e → is_network_error e ≡ false)
      → with_retry s ≡ (r, s')
  unfolding attempts request_op is_retryable
  do_request_with_retry-final s s' (ok t) ds p e h =
      with_retry-ok s ds p
      ∙ ap response_of (
          retry_do-first _ _ _ (client_retries cfg.max_retries ds) (s, []) (s', t)
            (ap (set_response []) e))
  do_request_with_retry-final s s' (err x) ds p e h =
      with_retry-ok s ds p
      ∙ ap response_of (
          retry_do-refused _ _ _ (client_retries cfg.max_retries ds) (s, []) (s', []) x
            (ap (set_response []) e) (h x refl))
