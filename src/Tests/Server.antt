-- ===== src/Tests/Server.antt =====
-- The server's handlers, over the in-memory storage.
use go_musthave_metrics.Base.{ℕ, ◌≡◌, refl, ◌⊎◌, ◌≤◌, true, ◌&&◌, none, some, [], ◌∷◌, arith}
use go_musthave_metrics.Base.{any}
use go_musthave_metrics.Base.Text.{Text, codes, str_eq, contains, lower, to_lower}
use go_musthave_metrics.Base.Ints.{pos}
use go_musthave_metrics.Base.Decimal.{parse_int, format_int}
use go_musthave_metrics.Base.Results.{ok, err}
use go_musthave_metrics.Model.{Metrics, counter, gauge}
use go_musthave_metrics.Storage.Interface.{bumped, IsLawful}
use go_musthave_metrics.Storage.Mem.{MemStorage}
use go_musthave_metrics.Storage.Mem.Instance.{mem_storage, mem_storage-IsLawful}
use go_musthave_metrics.Service
use go_musthave_metrics.Service.{ServiceState, Clock}
use go_musthave_metrics.Service.Wiring.{metrics_service, get-update_counter}
use go_musthave_metrics.Handler.Http.{Request, status_ok, application_json}
use go_musthave_metrics.Handler.Metrics.{
  Formats, MetricsService, update_metric_by_type, text_response, update_metric, update_post,
  update_batch, get_metric, sent_metric_post,
}
use go_musthave_metrics.Handler.Metrics.Writes.{
  FailsClean, refused_updates_change_nothing, update_post-eq-update_metric,
}
use go_musthave_metrics.Handler.Metrics.Reads.{sent_metric_post-status}
use go_musthave_metrics.Handler.Gzip.{is_gzip_encoding, gzip_word}
use go_musthave_metrics.Handler.Gzip.Parts.{is_gzip_part, parts, is_gzip_encoding-parts}
use go_musthave_metrics.Handler.Compress.{close}
use go_musthave_metrics.Handler.Compress.Wire.{sends_header, writes, run, fresh, Sent, close-Sent}
use go_musthave_metrics.Handler.Limits.{
  Limiter, refused, admit, rate_limiter, arrives, here, next, Tracker, stays, then_step, finishes,
}
use go_musthave_metrics.Handler.Limits.Concurrency.{limit_holds, shutdown_drains}

abbrev hits : Text
hits = codes "hits"

abbrev hit : Metrics ℕ
hit = record { id = hits; mtype = codes "Counter"; delta = some 5; value = none; hash = [] }

-- Every body decodes to the same metric.
abbrev formats : Formats ℕ
formats = record {
  parse_float = λ t. err (codes "no floats");
  format_float = λ v. [];
  decode_metric = λ t. ok hit;
  decode_metrics = λ t. ok (hit ∷ []);
  encode_metric = λ m. ok m.id;
}

abbrev clock : Clock ℕ
clock = record { now = 0; unix_milli = λ t. t }

abbrev State : Type 0
State = ServiceState (MemStorage ℕ) ℕ

abbrev state : State
state = record { storage = record { counters = (hits, 3) ∷ []; gauges = [] }; published = [] }

abbrev storage_law : IsLawful (mem_storage {F = ℕ} (λ v. []) (λ es. es) (λ es. es))
storage_law = mem_storage-IsLawful (λ v. []) (λ es. es) (λ es. es)

abbrev service : MetricsService ℕ State
service = metrics_service (mem_storage (λ v. []) (λ es. es) (λ es. es)) clock

get-update_counter_example :
    (get_metric formats service counter hits
      (update_metric formats service counter hits (codes "5") state).1).0
    ≡ text_response (format_int (bumped (storage_law.counter_of state.storage hits) 5))
unfolding parse_int update_metric update_metric_by_type str_eq Service.update_counter
get-update_counter_example =
    get-update_counter formats (mem_storage (λ v. []) (λ es. es) (λ es. es)) clock storage_law hits
      (codes "5") 5 state refl refl

abbrev request : Request
request = record {
  content_type = application_json;
  has_body = true;
  content_length = pos 2;
  body = codes "{}";
  remote_addr = [];
}

abbrev service-FailsClean : FailsClean service
unfolding Service.update_gauge Service.update_counter Service.update_metrics
service-FailsClean = record {
  clean_gauge = λ k v s h. absurd (h refl);
  clean_counter = λ k d s h. absurd (h refl);
  clean_batch = λ ms ip s h. absurd (h refl);
}

refused_updates_change_nothing_example :
    (((update_metric formats service gauge hits (codes "x") state).0.status ≡ status_ok)
      ⊎ ((update_metric formats service gauge hits (codes "x") state).1 ≡ state))
    × (((update_post formats service request state).0.status ≡ status_ok)
        ⊎ ((update_post formats service request state).1 ≡ state))
    × (((update_batch formats service request state).0.status ≡ status_ok)
        ⊎ ((update_batch formats service request state).1 ≡ state))
refused_updates_change_nothing_example =
    refused_updates_change_nothing formats service service-FailsClean gauge hits (codes "x") request
      state

update_post-eq-update_metric_example :
    update_post formats service request state
    ≡ update_metric formats service counter hits (codes "5") state
unfolding contains to_lower lower parse_int
update_post-eq-update_metric_example =
    update_post-eq-update_metric formats service request hit (codes "5") 5 state refl refl refl refl
      refl refl

sent_metric_post-status_example :
    (sent_metric_post formats service request state).0.status
    ≡ (get_metric formats service (to_lower (codes "Counter")) hits state).0.status
unfolding contains
sent_metric_post-status_example =
    sent_metric_post-status formats service request hit state refl refl

is_gzip_encoding-parts_example : is_gzip_encoding (codes "br, GZIP, gzip;q=1") ≡ (
    contains (codes "br, GZIP, gzip;q=1") gzip_word
    && any is_gzip_part (parts (codes "br, GZIP, gzip;q=1")))
is_gzip_encoding-parts_example = is_gzip_encoding-parts (codes "br, GZIP, gzip;q=1")

close-Sent_example :
    Sent
      (λ t. 1 ∷ t)
      (sends_header 404 ∷ writes hits ∷ [])
      (close (λ t. 1 ∷ t) (run fresh (sends_header 404 ∷ writes hits ∷ []))).w
close-Sent_example = close-Sent (λ t. 1 ∷ t) (sends_header 404 ∷ writes hits ∷ []) refl

abbrev one_served : Limiter
one_served = record { semaphore = 1; serving = 1 }

limit_holds_example : (1 ≤ 1) × ((admit (pos 1) one_served).0 ≡ refused)
unfolding admit rate_limiter
limit_holds_example = limit_holds {max = pos 1} {u = one_served} refl refl (next here arrives)

abbrev draining : Tracker
draining = record { shutting_down = true; entering = 1; serving = 1; active_requests = 1 }

abbrev ended : Tracker
ended = record { shutting_down = true; entering = 1; serving = 0; active_requests = 0 }

shutdown_drains_example : (1 ≤ 2) × (ended.active_requests ≡ ended.serving)
shutdown_drains_example =
    shutdown_drains {t = draining} {u = ended} refl refl (then_step stays (finishes (omega arith)))
