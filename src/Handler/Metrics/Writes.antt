-- ===== src/Handler/Metrics/Writes.antt =====
-- The handlers that update metrics, over any service.
use go_musthave_metrics.Base.{◌≡◌, ◌≢◌, inl, inr, ◌⊎◌, true, false, none, some, List, arith}
use go_musthave_metrics.Base.Text.{Text, str_eq_refl, contains, to_lower}
use go_musthave_metrics.Base.Words.{Int64}
use go_musthave_metrics.Base.Decimal.{parse_int}
use go_musthave_metrics.Base.Results.{ok, Result-cases}
use go_musthave_metrics.Model.{Metrics, counter, counter-ne-gauge}
use go_musthave_metrics.Handler.Http.{Request, header_only, status_ok, application_json}
use go_musthave_metrics.Handler.Metrics.{
  MetricsService, Formats, finish, has_no_content, is_valid_metric_type, update_metric_by_type,
  update_metric, update_metric_from_json, update_post, update_batch,
}

-- A call of the service that returns an error has changed nothing.
pub record FailsClean {F S : Type 0} (svc : MetricsService F S) : Type 0 where
  pub clean_gauge :
      (k : Text) (v : F) (s : S)
      → (svc.update_gauge k v s).0 ≢ none
      → (svc.update_gauge k v s).1 ≡ s
  pub clean_counter :
      (k : Text) (d : Int64) (s : S)
      → (svc.update_counter k d s).0 ≢ none
      → (svc.update_counter k d s).1 ≡ s
  pub clean_batch :
      (ms : List (Metrics F)) (ip : Text) (s : S)
      → (svc.update_metrics ms ip s).0 ≢ none
      → (svc.update_metrics ms ip s).1 ≡ s

module _ {F S : Type 0} (fmt : Formats F) (svc : MetricsService F S) where
  module _ (c : FailsClean svc) where
    update_metric_clean :
        (t n v : Text) (s : S)
        → ((update_metric fmt svc t n v s).0.status ≡ status_ok)
          ⊎ ((update_metric fmt svc t n v s).1 ≡ s)
    unfolding update_metric update_metric_by_type
    update_metric_clean t n v s = grind (arith, c.clean_gauge, c.clean_counter)

    from_json_clean :
        (m : Metrics F) (s : S)
        → ((finish (update_metric_from_json fmt svc m s)).0.status ≡ status_ok)
          ⊎ ((finish (update_metric_from_json fmt svc m s)).1 ≡ s)
    unfolding update_metric_from_json
    from_json_clean m s = grind (arith, c.clean_gauge, c.clean_counter)

    update_post_clean :
        (r : Request) (s : S)
        → ((update_post fmt svc r s).0.status ≡ status_ok) ⊎ ((update_post fmt svc r s).1 ≡ s)
    unfolding update_post
    update_post_clean r s = elim (Result-cases (fmt.decode_metric r.body)) [
      | inl (m, e) ↦ ground (arith, from_json_clean m s)
      | inr (x, e) ↦ ground arith
    ]

    update_batch_clean :
        (r : Request) (s : S)
        → ((update_batch fmt svc r s).0.status ≡ status_ok) ⊎ ((update_batch fmt svc r s).1 ≡ s)
    unfolding update_batch
    update_batch_clean r s = elim (Result-cases (fmt.decode_metrics r.body)) [
      | inl (ms, e) ↦ ground (arith, c.clean_batch ms r.remote_addr s)
      | inr (x, e) ↦ ground arith
    ]

    -- Every update endpoint answers 200 or leaves the state as it was, when the service's failed
    -- calls change nothing.
    pub refused_updates_change_nothing :
        (t n v : Text) (r : Request) (s : S)
        → (((update_metric fmt svc t n v s).0.status ≡ status_ok)
            ⊎ ((update_metric fmt svc t n v s).1 ≡ s))
          × (((update_post fmt svc r s).0.status ≡ status_ok) ⊎ ((update_post fmt svc r s).1 ≡ s))
          × (((update_batch fmt svc r s).0.status ≡ status_ok) ⊎ ((update_batch fmt svc r s).1 ≡ s))
    refused_updates_change_nothing t n v r s =
        (update_metric_clean t n v s, update_post_clean r s, update_batch_clean r s)

  -- For a JSON request that decodes to a counter with a delta, its type in any case, the JSON
  -- endpoint gives the same response and the same state as the endpoint with the same name and the
  -- same integer in its path.
  pub update_post-eq-update_metric :
      (r : Request) (m : Metrics F) (value : Text) (d : Int64) (s : S)
      → contains r.content_type application_json ≡ true
      → has_no_content r ≡ false
      → fmt.decode_metric r.body ≡ ok m
      → to_lower m.mtype ≡ counter
      → m.delta ≡ some d
      → parse_int value ≡ some d
      → update_post fmt svc r s ≡ update_metric fmt svc counter m.id value s
  unfolding update_post update_metric update_metric_by_type update_metric_from_json
      is_valid_metric_type
  update_post-eq-update_metric r m value d s ct body dec ty de pa =
      ground (arith, str_eq_refl counter, counter-ne-gauge)

  -- A batch that decodes and that the service takes is answered with an empty 200.
  pub update_batch-ok :
      (r : Request) (ms : List (Metrics F)) (s : S)
      → contains r.content_type application_json ≡ true
      → fmt.decode_metrics r.body ≡ ok ms
      → (svc.update_metrics ms r.remote_addr s).0 ≡ none
      → update_batch fmt svc r s
        ≡ (header_only status_ok, (svc.update_metrics ms r.remote_addr s).1)
  unfolding update_batch
  update_batch-ok r ms s ct dec saved = ground (arith, ct, dec, saved)
