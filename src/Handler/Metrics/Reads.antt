-- ===== src/Handler/Metrics/Reads.antt =====
-- The handlers that read a metric, over any service.
use go_musthave_metrics.Base.{◌≡◌, Bool, true, false, ◌||◌, if◌then◌else◌, arith}
use go_musthave_metrics.Base.Text.{Text, str_eq, contains, to_lower}
use go_musthave_metrics.Base.Results.{Result, ok, err}
use go_musthave_metrics.Model.{Metrics, counter, gauge}
use go_musthave_metrics.Handler.Http.{
  Request, status_ok, status_bad_request, status_not_found, application_json,
}
use go_musthave_metrics.Handler.Metrics.{
  MetricsService, Formats, is_valid_metric_type, get_metric, get_metric_for_json_response,
  sent_metric_post,
}

abbrev is_ok {ℓ} : {A : Type ℓ} → Result A → Bool
is_ok (ok a) = true
is_ok (err e) = false

module _ {F S : Type 0} (fmt : Formats F) (svc : MetricsService F S) where
  -- The service knows a metric of that type and name.
  abbrev pub is_known : Text → Text → S → Bool
  is_known t n s =
      if str_eq t gauge then is_ok (svc.get_gauge n s).0 else is_ok (svc.get_counter n s).0

  -- A read answers 400 for a type that is neither gauge nor counter, 404 for a metric that the
  -- service does not know, and 200 otherwise.
  pub get_metric-status :
      (t n : Text) (s : S)
      → (get_metric fmt svc t n s).0.status ≡ (
          if str_eq t gauge || str_eq t counter
          then if is_known t n s then status_ok else status_not_found
          else status_bad_request)
  unfolding get_metric is_valid_metric_type
  get_metric-status t n s = ground arith

  -- For a JSON request that decodes, the JSON read answers with the status of the plain read of
  -- the same metric, with its type in lower case.
  pub sent_metric_post-status :
      (r : Request) (m : Metrics F) (s : S)
      → contains r.content_type application_json ≡ true
      → fmt.decode_metric r.body ≡ ok m
      → (sent_metric_post fmt svc r s).0.status
        ≡ (get_metric fmt svc (to_lower m.mtype) m.id s).0.status
  unfolding sent_metric_post get_metric_for_json_response get_metric is_valid_metric_type
  sent_metric_post-status r m s ct dec = ground arith
