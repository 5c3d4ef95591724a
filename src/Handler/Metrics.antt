-- ===== src/Handler/Metrics.antt =====
-- internal/handler/metricshandler/metrics.go. A handler takes what it reads of the request and the
-- state of the service, and returns the response and the new state. Logging is left out.
-- `encoding/json`, and strconv on floats, are parameters.
pub mod Writes
pub mod Reads
use go_musthave_metrics.Base.{
  ℕ, Bool, true, false, ◌&&◌, ◌||◌, not, ◌⊎◌, inl, inr, Option, none, some, List, [], ◌∷◌, ◌++◌,
  if◌then◌else◌, ◌==◌,
}
use go_musthave_metrics.Base.Text.{Text, codes, str_eq, contains, to_lower}
use go_musthave_metrics.Base.Ints.{ℤ, pos}
use go_musthave_metrics.Base.Words.{Int64}
use go_musthave_metrics.Base.Decimal.{format_int, parse_int}
use go_musthave_metrics.Base.Results.{Error, Result, ok, err}
use go_musthave_metrics.Model.{Metrics, counter, gauge}
use go_musthave_metrics.Handler.Http.{
  Request, Response, http_error, header_only, application_json, status_ok, status_bad_request,
  status_not_found, status_unsupported_media_type, status_internal_server_error,
}

pub record Formats (F : Type 0) : Type 0 where
  pub parse_float : Text → Result F
  pub format_float : F → Text
  pub decode_metric : Text → Result (Metrics F)
  pub decode_metrics : Text → Result (List (Metrics F))
  pub encode_metric : Metrics F → Result Text

unfoldable pub is_valid_metric_type : Text → Bool
is_valid_metric_type t = str_eq t gauge || str_eq t counter

-- `r.Body == nil || r.ContentLength == 0`
abbrev has_no_content : Request → Bool
has_no_content r = not r.has_body || elim r.content_length [ pos n ↦ n == 0 | _ ↦ false ]

-- `MetricsService` of metrics_service.go; `S` is the state behind it.
pub record MetricsService (F S : Type 0) : Type 0 where
  pub update_gauge : Text → F → S → Option Error × S
  pub update_counter : Text → Int64 → S → Option Error × S
  pub update_metrics : List (Metrics F) → Text → S → Option Error × S
  pub get_gauge : Text → S → Result F × S
  pub get_counter : Text → S → Result Int64 × S

abbrev pub text_response : Text → Response
text_response t = record { status = status_ok; content_type = codes "text/plain"; body = t }

-- What is left of an update once the service was called: nil gives no response yet.
abbrev or_error : {S : Type 0} → Text → Option Error × S → Option Response × S
or_error msg (none, s) = (none, s)
or_error msg (some e, s) = (some (http_error msg status_internal_server_error), s)

-- The end of an update handler: 200 unless an error has been written.
abbrev pub finish : {S : Type 0} → Option Response × S → Response × S
finish (some r, s) = (r, s)
finish (none, s) = (header_only status_ok, s)

abbrev pub unsupported : Response
unsupported = http_error (codes "unsupported content type") status_unsupported_media_type

abbrev pub invalid_json : Response
invalid_json = http_error (codes "invalid JSON in request") status_bad_request

module _ {F S : Type 0} (fmt : Formats F) (svc : MetricsService F S) where
  unfoldable pub get_metric : Text → Text → S → Response × S
  get_metric metric_type metric_name s =
      if not (is_valid_metric_type metric_type)
      then (http_error (codes "invalid metric type") status_bad_request, s)
      else if str_eq metric_type gauge
      then (let (r, s') = svc.get_gauge metric_name s in
          (
            elim r [
              | err e ↦ http_error (codes "error getting gauge metric") status_not_found
              | ok v ↦ text_response (fmt.format_float v)
            ],
            s',
          ))
      else let (r, s') = svc.get_counter metric_name s in
        (
          elim r [
            | err e ↦ http_error (codes "error getting counter metric") status_not_found
            | ok v ↦ text_response (format_int v)
          ],
          s',
        )

  -- `none` is a nil error; `some r` is an error whose response has been written.
  unfoldable pub update_metric_by_type : Text → Text → Text → S → Option Response × S
  update_metric_by_type metric_type metric_name metric_value s =
      if str_eq metric_type gauge
      then elim (fmt.parse_float metric_value) [
        | err e ↦ (some (http_error (codes "invalid gauge value format") status_bad_request), s)
        | ok v ↦ or_error (codes "failed to update gauge metric") (svc.update_gauge metric_name v s)
      ]
      else if str_eq metric_type counter
      then elim (parse_int metric_value) [
        | none ↦ (some (http_error (codes "invalid counter value format") status_bad_request), s)
        | some d ↦
            or_error (codes "failed to update counter metric") (svc.update_counter metric_name d s)
      ]
      else (some (http_error (codes "unknown metric type") status_bad_request), s)

  unfoldable pub update_metric : Text → Text → Text → S → Response × S
  update_metric metric_type metric_name value s =
      finish (update_metric_by_type metric_type metric_name value s)

  pub update_metric_from_json : Metrics F → S → Option Response × S
  update_metric_from_json m s =
      let metric_type = to_lower m.mtype in
      if not (is_valid_metric_type metric_type)
      then (some (http_error (codes "unknown metric type") status_bad_request), s)
      else if str_eq metric_type gauge
      then elim m.value [
        | none ↦
            (some (http_error (codes "metric value is required for gauge") status_bad_request), s)
        | some v ↦ or_error (codes "failed to update gauge metric") (svc.update_gauge m.id v s)
      ]
      else elim m.delta [
        | none ↦
            (some (http_error (codes "metric delta is required for counter") status_bad_request), s)
        | some d ↦ or_error (codes "failed to update counter metric") (svc.update_counter m.id d s)
      ]

  pub update_post : Request → S → Response × S
  update_post r s =
      if not (contains r.content_type application_json)
      then (unsupported, s)
      else if has_no_content r
      then (http_error (codes "empty request body") status_bad_request, s)
      else elim (fmt.decode_metric r.body) [
        | err e ↦ (invalid_json, s)
        | ok m ↦ finish (update_metric_from_json m s)
      ]

  unfoldable pub update_batch : Request → S → Response × S
  update_batch r s =
      if not (contains r.content_type application_json)
      then (unsupported, s)
      else elim (fmt.decode_metrics r.body) [
        | err e ↦ (invalid_json, s)
        | ok ms ↦
            let (e, s') = svc.update_metrics ms r.remote_addr s in
            (
              elim e [
                | some x ↦
                    http_error (codes "failed to save batch of metrics")
                      status_internal_server_error
                | none ↦ header_only status_ok
              ],
              s',
            )
      ]

  -- The metric to answer with, or the error that has been written.
  pub get_metric_for_json_response : Metrics F → S → (Response ⊎ Metrics F) × S
  get_metric_for_json_response m s =
      let metric_type = to_lower m.mtype in
      if not (is_valid_metric_type metric_type)
      then (inl (http_error (codes "unknown metric type") status_bad_request), s)
      else if str_eq metric_type gauge
      then (let (r, s') = svc.get_gauge m.id s in
          (
            elim r [
              | err e ↦ inl (http_error (codes "metric not found") status_not_found)
              | ok v ↦
                  inr
                    (record { id = m.id; mtype = m.mtype; delta = none; value = some v; hash = [] })
            ],
            s',
          ))
      else let (r, s') = svc.get_counter m.id s in
        (
          elim r [
            | err e ↦ inl (http_error (codes "metric not found") status_not_found)
            | ok d ↦
                inr (record { id = m.id; mtype = m.mtype; delta = some d; value = none; hash = [] })
          ],
          s',
        )

  -- The status is sent before the encoder runs, so its error only changes the body.
  pub sent_metric_post : Request → S → Response × S
  sent_metric_post r s =
      if not (contains r.content_type application_json)
      then (unsupported, s)
      else elim (fmt.decode_metric r.body) [
        | err e ↦ (invalid_json, s)
        | ok m ↦
            let (a, s') = get_metric_for_json_response m s in
            (
              elim a [
                | inl e ↦ e
                | inr resp ↦ record {
                  status = status_ok;
                  content_type = application_json;
                  body = elim (fmt.encode_metric resp) [
                    | ok t ↦ t
                    | err e ↦ codes "error encoding response\n"
                  ];
                }
              ],
              s',
            )
      ]
