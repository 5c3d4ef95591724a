-- ===== src/Tests/Batches.antt =====
-- A batch that is posted to a server over a small database.
use go_musthave_metrics.Base.{inr, ℕ, refl, true, none, some, List, [], ◌∷◌, ◌++◌}
use go_musthave_metrics.Base.Text.{codes}
use go_musthave_metrics.Base.Ints.{pos}
use go_musthave_metrics.Base.Results.{ok, err}
use go_musthave_metrics.Model.{Metrics, counter, gauge}
use go_musthave_metrics.Retry.{RetryConfig}
use go_musthave_metrics.Storage.Db
use go_musthave_metrics.Storage.Db.{DbError, Pgx, Statement, begun, no_rows}
use go_musthave_metrics.Storage.Db.Atomic.{Transactions, apply_all}
use go_musthave_metrics.Storage.Db.Uncertain.{UncertainCommits}
use go_musthave_metrics.Storage.Db.Instance.{db_storage}
use go_musthave_metrics.Service.{Clock, ServiceState}
use go_musthave_metrics.Service.Wiring.{metrics_service}
use go_musthave_metrics.Handler.Http.{Request, application_json}
use go_musthave_metrics.Handler.Metrics.{Formats, update_batch}
use go_musthave_metrics.Server.Batched.{Answered, batch_answer}

abbrev hit : Metrics ℕ
hit = record { id = codes "hits"; mtype = counter; delta = some 4; value = none; hash = [] }

abbrev loaded : Metrics ℕ
loaded = record { id = codes "load"; mtype = gauge; delta = none; value = some 9; hash = [] }

abbrev formats : Formats ℕ
formats = record {
  parse_float = λ t. err (codes "no floats");
  format_float = λ v. [];
  decode_metric = λ t. ok hit;
  decode_metrics = λ t. ok (hit ∷ loaded ∷ []);
  encode_metric = λ m. ok m.id;
}

abbrev request : Request
request = record {
  content_type = application_json;
  has_body = true;
  content_length = pos 2;
  body = codes "[]";
  remote_addr = [];
}

abbrev clock : Clock ℕ
clock = record { now = 0; unix_milli = λ t. t }

-- A server whose table is the log of its statements, newest first.
abbrev Log : Type 0
Log = List (Statement ℕ)

abbrev logging : Pgx ℕ
logging = record {
  World = Log × Log;
  Tx = Unit {0};
  exec = λ w s. (none, (s ∷ w.0, w.1));
  begin_tx = λ w. (begun tt, (w.0, []));
  tx_exec = λ t s w. (none, (w.0, w.1 ++ s ∷ []));
  commit = λ t w. (none, (apply_all (λ s l. s ∷ l) w.1 w.0, []));
  rollback = λ t w. (w.0, []);
  query_value = λ k w. (no_rows, w);
  query_delta = λ k w. (no_rows, w);
  query_rows = λ w. (Db.delivers [] Db.exhausted, w);
  ctx_err = λ w. none;
  wait = λ w d. (none, w);
}

abbrev logging-Transactions : Transactions logging
logging-Transactions = record {
  Table = Log;
  table = λ w. w.0;
  apply = λ s l. s ∷ l;
  pending = λ t w. w.1;
  begin_keeps = λ w. refl;
  begin_empty = λ w t e. refl;
  exec_keeps = λ t s w. refl;
  exec_adds = λ t s w e. refl;
  rollback_keeps = λ t w. refl;
  commit_applies = λ t w e. refl;
  wait_keeps = λ w d. refl;
}

abbrev logging-UncertainCommits : UncertainCommits logging-Transactions
logging-UncertainCommits = record { commit_unknown = λ t w e h. inr refl }

abbrev three_retries : RetryConfig DbError
three_retries = record {
  max_retries = pos 3;
  delays = none;
  is_retryable_fn = some Db.is_connection_error;
}

abbrev empty_table : ServiceState logging.World ℕ
empty_table = record { storage = ([], []); published = [] }

batch_answer_example :
    Answered formats clock logging three_retries
      (λ v. [])
      none
      logging-Transactions
      logging-UncertainCommits
      []
      request
      (update_batch formats
        (metrics_service (db_storage logging three_retries (λ v. []) none) clock)
        request
        empty_table)
batch_answer_example =
    batch_answer formats clock logging three_retries (λ v. []) none logging-Transactions
      logging-UncertainCommits request empty_table
