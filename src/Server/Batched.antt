-- ===== src/Server/Batched.antt =====
-- `POST /updates` over the database storage.
use mathlib.Core.Path.{subst}
use go_musthave_metrics.Base.{
  ℕ, ◌≡◌, ◌≢◌, ◌⊎◌, refl, sym, ◌∙◌, ap, Bool-cases, true, Option, none, some, List, Option-cases,
  inl, inr, arith,
}
use go_musthave_metrics.Base.Text.{Text, contains}
use go_musthave_metrics.Base.Results.{ok, Result-cases}
use go_musthave_metrics.Retry.{RetryConfig, total_attempts}
use go_musthave_metrics.Model.{Metrics}
use go_musthave_metrics.Retry.Attempts.{Outcome}
use go_musthave_metrics.Storage.Db
use go_musthave_metrics.Storage.Db.{DbError, Pgx}
use go_musthave_metrics.Storage.Db.Atomic.{Transactions}
use go_musthave_metrics.Storage.Db.Uncertain.{UncertainCommits, Applied, update_metrics-Applied}
use go_musthave_metrics.Storage.Db.Instance.{db_storage, failure}
use go_musthave_metrics.Service
use go_musthave_metrics.Service.{ServiceState, Clock}
use go_musthave_metrics.Service.Wiring.{metrics_service}
use go_musthave_metrics.Handler.Http.{
  Request, Response, status_ok, status_internal_server_error, application_json,
}
use go_musthave_metrics.Handler.Metrics.{Formats, update_batch}

module _ {F Time : Type 0} (fmt : Formats F) (clock : Clock Time) (p : Pgx F)
    (cfg : RetryConfig DbError) (format_float : F → Text)
    (pgx_ping : Option (p.World → Option DbError × p.World)) (l : Transactions p)
    (uncertain : UncertainCommits l) where
  abbrev State : Type 0
  State = ServiceState p.World Time

  abbrev answer : Request → State → Response × State
  answer = update_batch fmt (metrics_service (db_storage p cfg format_float pgx_ping) clock)

  -- With 200 the batch of the body was applied at least once; otherwise the table is as it was, or the
  -- batch was applied as a whole, if at all; and never more often than there are attempts.
  abbrev pub Answered : l.Table → Request → Response × State → Type 0
  Answered t0 r result =
      ((result.0.status ≡ status_ok)
        × (ms : List (Metrics F)) × (fmt.decode_metrics r.body ≡ ok ms)
        × Applied p cfg l uncertain t0 ms 1 (total_attempts cfg) result.1.storage)
      ⊎ ((result.0.status ≢ status_ok)
          × ((l.table result.1.storage ≡ t0)
              ⊎ ((ms : List (Metrics F)) × (fmt.decode_metrics r.body ≡ ok ms)
                  × Applied p cfg l uncertain t0 ms 0 (total_attempts cfg) result.1.storage)))

  server_error-ne-ok : status_internal_server_error ≢ status_ok
  server_error-ne-ok h = omega (arith, h)

  abbrev after : List (Metrics F) → State → Option DbError × p.World
  after ms s = Db.update_metrics p cfg ms s.storage

  abbrev Few : List (Metrics F) → State → ℕ → p.World → Type 0
  Few ms s least = Applied p cfg l uncertain (l.table s.storage) ms least (total_attempts cfg)

  module _ (r : Request) (ms : List (Metrics F)) (s : State)
      (dec : fmt.decode_metrics r.body ≡ ok ms)
      (ct : contains r.content_type application_json ≡ true) where
    answer-storage : (answer r s).1.storage ≡ (after ms s).1
    unfolding update_batch Service.update_metrics
    answer-storage = elim (Option-cases (after ms s).0) [
      | inl e ↦ ground (arith, ct, dec, e)
      | inr (x, e) ↦ ground (arith, ct, dec, e)
    ]

    answer-ok : (after ms s).0 ≡ none → (answer r s).0.status ≡ status_ok
    unfolding update_batch Service.update_metrics
    answer-ok e = ground (arith, ct, dec, ap failure e)

    answer-failed :
        (x : DbError)
        → (after ms s).0 ≡ some x
        → (answer r s).0.status ≡ status_internal_server_error
    unfolding update_batch Service.update_metrics
    answer-failed x e = ground (arith, ct, dec, ap failure e)

    stored :
        Outcome (Few ms s 0) (Few ms s 1) (after ms s) → Answered (l.table s.storage) r (answer r s)
    stored outcome =
        let ending : Option DbError → Type 0 =
          λ o. Outcome (Few ms s 0) (Few ms s 1) (o, (after ms s).1) in
        elim (Option-cases (after ms s).0) [
          | inl e ↦ inl (
            answer-ok e,
            ms,
            dec,
            subst (Few ms s 1) (sym answer-storage) (subst ending e outcome),
          )
          | inr (x, e) ↦ inr (
            λ h. server_error-ne-ok (sym (answer-failed x e) ∙ h),
            inr (ms, dec, subst (Few ms s 0) (sym answer-storage) (subst ending e outcome)),
          )
        ]

  -- Over a database that keeps the laws of transactions, and whose failed commits may have happened:
  -- a batch that the server answers with 200 is a list of metrics, and its gauges with a value and its
  -- counters with a delta were applied to the table as a whole, in order, at least once; on every
  -- other answer the table is as it was, or the body decodes and its batch may have been applied as a
  -- whole. It is applied at most once for each attempt, and nothing else changes the table.
  pub batch_answer : (r : Request) (s : State) → Answered (l.table s.storage) r (answer r s)
  unfolding update_batch
  batch_answer r s = elim (Bool-cases (contains r.content_type application_json)) [
    | inr h ↦ rw h (inr ((λ q. omega (arith, q)), inl refl))
    | inl h ↦ elim (Result-cases (fmt.decode_metrics r.body)) [
      | inr (x, e) ↦ rw (h, e) (inr ((λ q. omega (arith, q)), inl refl))
      | inl (ms, e) ↦
          stored r ms s e h
            (update_metrics-Applied p cfg l uncertain (l.table s.storage) ms s.storage refl)
    ]
  ]
