-- ===== src/Agent/Client/Requests.antt =====
-- `doRequest`, `doRequestWithRetry` and `Post` of client.go. The network is a step of a state `S`.
pub mod Retried
use go_musthave_metrics.Base.{ℕ, Option, none, some, List, [], ◌∷◌, ◌++◌, leb, if◌then◌else◌}
use go_musthave_metrics.Base.Text.{Text, codes}
use go_musthave_metrics.Base.Ints.{ℤ}
use go_musthave_metrics.Base.Decimal.{decimal}
use go_musthave_metrics.Base.Results.{Error, Result, ok, err}
use go_musthave_metrics.Config.{AgentFlags, get_retry_delays_as_duration}
use go_musthave_metrics.Retry.{Duration, RetryConfig, retry_do}
use go_musthave_metrics.Agent.Client.{
  RequestProcessor, Outgoing, process_request, is_network_error, normalize_url,
}
use go_musthave_metrics.Agent.Client.Responses.{HttpResponse, process_response}

-- A request on the wire; `none` for the body of a Get.
pub record Wire : Type 0 where
  pub method : Text
  pub url : Text
  pub payload : Option Outgoing

-- net/http: `refuses` is the error of `http.NewRequest`, `send` is `client.Do`. Then the context and
-- the timer of the retries.
pub record Network (S : Type 0) : Type 0 where
  pub refuses : Text → Text → Option Error
  pub send : Wire → S → Result HttpResponse × S
  pub ctx_err : S → Option Error
  pub wait : S → Duration → Option Error × S

-- The operation of the retries: `response` is set by a call that succeeds.
abbrev pub set_response : {S : Type 0} → Text → Result Text × S → Option Error × (S × Text)
set_response response (err e, s) = (some e, (s, response))
set_response response (ok resp, s) = (none, (s, resp))

pub request_op : {S : Type 0} → (S → Result Text × S) → S × Text → Option Error × (S × Text)
request_op call (s, response) = set_response response (call s)

abbrev pub client_retries : ℤ → List Duration → RetryConfig Error
client_retries max_retries delays = record {
  max_retries = max_retries;
  delays = some delays;
  is_retryable_fn = some is_network_error;
}

-- `body` is what json.Marshal gave, `none` for nil.
unfoldable pub prepare :
    (Text → Text)
    → (Text → Result Text)
    → RequestProcessor
    → Option (Result Text)
    → Result (Option Outgoing)
prepare sha256_hex gzip rp none = ok none
prepare sha256_hex gzip rp (some (err e)) = err (codes "marshaling payload failed: " ++ e)
prepare sha256_hex gzip rp (some (ok json_data)) =
    elim (process_request sha256_hex gzip rp json_data) [ err e ↦ err e | ok o ↦ ok (some o) ]

-- What `doRequest` makes of the answer.
unfoldable pub accept : (Text → Result Text) → HttpResponse → Result Text
accept gunzip resp = elim (process_response gunzip resp) [
  | err e ↦ err e
  | ok response_body ↦
      if leb 400 resp.status_code
      then err (
          codes "request failed with status "
          ++ (decimal resp.status_code ++ (codes ": " ++ response_body)))
      else ok response_body
]

module _ {S : Type 0} (net : Network S) (sha256_hex : Text → Text)
    (gzip gunzip : Text → Result Text) where
  unfoldable pub do_request :
      RequestProcessor → Text → Text → Text → Option (Result Text) → S → Result Text × S
  unfolding prepare accept
  do_request rp base_url method endpoint body s = elim (prepare sha256_hex gzip rp body) [
    | err e ↦ (err e, s)
    | ok payload ↦ elim (net.refuses method (base_url ++ endpoint)) [
      | some e ↦ (err (codes "creating request failed: " ++ e), s)
      | none ↦
          let (r, s') =
            net.send (record { method = method; url = base_url ++ endpoint; payload = payload })
              s in
          (
            elim r [
              | err e ↦ err (codes "executing request failed: " ++ e)
              | ok resp ↦ accept gunzip resp
            ],
            s',
          )
    ]
  ]

-- The end of `doRequestWithRetry`.
abbrev pub response_of : {S : Type 0} → Option Error × (S × Text) → Result Text × S
response_of (some e, (s, response)) = (err e, s)
response_of (none, (s, response)) = (ok response, s)

-- `GetRetryDelaysAsDuration` needs time.ParseDuration.
module _ {S : Type 0} (net : Network S) (sha256_hex : Text → Text)
    (gzip gunzip : Text → Result Text) (parse_duration : Text → Result Duration) where
  -- From the test of the error of `GetRetryDelaysAsDuration` on.
  with_delays : ℤ → (S → Result Text × S) → Result (List Duration) → S → Result Text × S
  unfolding request_op
  with_delays max_retries call (err e) s = (err e, s)
  with_delays max_retries call (ok delays) s = response_of (
      retry_do (λ (t : S × Text). net.ctx_err t.0) (request_op call)
        (λ (t : S × Text) d. let (c, u) = net.wait t.0 d in (c, (u, t.1)))
        (client_retries max_retries delays) (s, []))

  pub do_request_with_retry :
      AgentFlags
      → RequestProcessor
      → Text
      → Text
      → Text
      → Option (Result Text)
      → S
      → Result Text × S
  unfolding with_delays
  do_request_with_retry cfg rp base_url method endpoint body =
      with_delays cfg.max_retries
        (do_request net sha256_hex gzip gunzip rp base_url method endpoint body)
        (get_retry_delays_as_duration parse_duration cfg.retry_delays)

  unfoldable pub post :
      AgentFlags → RequestProcessor → Text → Text → Result Text → S → Result Text × S
  post cfg rp base_url endpoint body =
      do_request_with_retry cfg rp base_url (codes "POST") endpoint (some body)

  get : AgentFlags → RequestProcessor → Text → Text → S → Result Text × S
  get cfg rp base_url endpoint = do_request_with_retry cfg rp base_url (codes "GET") endpoint none
