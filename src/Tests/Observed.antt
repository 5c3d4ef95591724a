-- ===== src/Tests/Observed.antt =====
-- The audit observers, and the start of a server.
use go_musthave_metrics.Base.{
  ℕ, ◌≡◌, ◌≢◌, ◌⊎◌, map, refl, ◌+◌, false, none, some, [], ◌∷◌, ◌++◌, leb, if◌then◌else◌,
}
use go_musthave_metrics.Base.Text.{Text, codes, str_eq}
use go_musthave_metrics.Base.Ints.{pos}
use go_musthave_metrics.Base.Decimal.{decimal}
use go_musthave_metrics.Base.Results.{Result, ok, err}
use go_musthave_metrics.Config.{ServerFlags, get_retry_delays_as_duration}
use go_musthave_metrics.Retry.{Duration}
use go_musthave_metrics.Storage.Mem.Life.{new_mem_storage}
use go_musthave_metrics.Storage.Mem.Files.{Outside, unreadable}
use go_musthave_metrics.Observers.{register, new_event_publisher}
use go_musthave_metrics.Observers.File.{
  Disk, FileObserver, close_observer, on_metric_processed, new_file_observer,
}
use go_musthave_metrics.Observers.File.Lines.{process, audit_lines, close-process}
use go_musthave_metrics.Observers.Http.{HttpObserver, AuditServer, new_http_observer, send_event}
use go_musthave_metrics.Observers.Http.Sent.{answered_once}
use go_musthave_metrics.Agent.Client.{is_network_error}
use go_musthave_metrics.Server.Database.{Pgx, Migrate}
use go_musthave_metrics.Server.Startup.{
  Dependencies, Resource, memory, nil_storage, metric_logger, file_observer, storage_resource,
  file_resource, http_resource, init_dependencies,
}
use go_musthave_metrics.Server.Shutdown.{Closer, HttpServer}
use go_musthave_metrics.Server.Run.{returns, panics, run}
use go_musthave_metrics.Server.Run.Closes.{close_each, run-closes}
use go_musthave_metrics.Server.Startup.Closed.{held, kinds, wanted}

-- A disk with one file.
abbrev disk : Disk ℕ Text
disk = record {
  open_file = λ path w. (ok 3, w);
  write = λ f t w. (none, w ++ t);
  sync = λ f w. (some (codes "no sync"), w);
  close = λ f w. (none, w);
}

abbrev marshal : ℕ → Result Text
marshal n = if leb 9 n then err (codes "too big") else ok (codes "e")

abbrev opened : FileObserver ℕ
opened = record { file = some 3; file_path = codes "audit.log" }

abbrev after_close : FileObserver ℕ
after_close = record { file = none; file_path = codes "audit.log" }

close-process_example :
    (codes "0\ne\n" ≡ codes "0\n" ++ audit_lines disk marshal (λ w. w) (1 ∷ 12 ∷ []))
    × (process disk marshal (λ w. w) after_close (5 ∷ []) (codes "0\ne\n") ≡ codes "0\ne\n")
    × (close_observer disk after_close (codes "0\ne\n") ≡ (none, (after_close, codes "0\ne\n")))
unfolding process close_observer on_metric_processed
close-process_example =
    close-process disk marshal (λ w. w)
      (record { appended = λ f t w. refl; synced = λ f w. refl; closed = λ f w. refl }) opened
      after_close 3 (1 ∷ 12 ∷ []) (5 ∷ []) (codes "0\n") (codes "0\ne\n") refl refl

abbrev flags : ServerFlags
flags = record {
  server_addr = codes ":8080";
  log_level = codes "info";
  store_interval = pos 300;
  file_storage_path = [];
  restore = false;
  database_dsn = [];
  secret_ket = [];
  rate_limit = pos 0;
  max_retries = pos 3;
  retry_delays = codes "1s" ∷ [];
  audit_file = codes "audit.log";
  audit_url = [];
}

abbrev parse_duration : Text → Result Duration
parse_duration t = ok 1_000_000_000

abbrev http : HttpObserver
http = record {
  url = codes "http://audit";
  retry_cfg = record {
    max_retries = pos 3;
    delays = some (1_000_000_000 ∷ []);
    is_retryable_fn = some is_network_error;
  };
}

-- It counts the requests and answers 503 to each.
abbrev failing_server : AuditServer ℕ
failing_server = record {
  refuses = λ url. none;
  answers = λ url t w. (ok 503, w + 1);
  sleep = λ d w. w;
}

answered_once_example :
    send_event failing_server http (ok (codes "{}")) 0
    ≡ (if leb 500 503 then some (codes "HTTP " ++ decimal 503) else none, 1)
unfolding new_http_observer get_retry_delays_as_duration
answered_once_example =
    answered_once failing_server parse_duration (codes "http://audit") (codes "{}") flags http 503 0
      1 refl refl refl

abbrev no_pgx : Pgx ℕ Text
no_pgx = record {
  parse_config = λ dsn. none;
  connect_config = λ dsn w. (err (codes "connection refused"), w);
  ping = λ pool w. (none, w);
  close = λ pool w. w;
}

abbrev migrations : Migrate Text
migrations = record {
  open_db = λ dsn w. (none, w);
  ping_db = λ w. (none, w);
  with_instance = λ w. (none, w);
  new_migrate = λ path w. (none, w);
  up = λ w. (none, w);
  close_db = λ w. w;
}

abbrev started : Dependencies ℕ ℕ
started = record {
  storage = memory;
  subject = record { observers = metric_logger ∷ file_observer opened ∷ [] };
  resources = storage_resource memory ∷ file_resource opened ∷ [];
}

-- Closing leaves a mark.
abbrev mark : Resource ℕ ℕ → ℕ
mark (storage_resource st) = 1
mark (file_resource o) = 2
mark (http_resource o) = 3

abbrev close_marking : Resource ℕ ℕ → Closer Text
close_marking r w = (none, mark r ∷ w)

abbrev quiet_server : HttpServer Text
quiet_server = record {
  close_shutdown_channel = λ w. w;
  shutdown = λ w. (some (codes "deadline exceeded"), w);
  wait_for_requests = λ w. (false, w);
}

-- The saved metrics cannot be read.
abbrev no_files : Outside ℕ
no_files = record {
  Data = Text;
  Disk = Text;
  marshal_indent = λ ms. ok [];
  unmarshal = λ t. err (codes "bad JSON");
  read_file = λ d p. unreadable (codes "no such file");
  write_file = λ d p x. (none, x);
}

run-closes_example :
    let result =
      run no_pgx migrations disk no_files
        (λ w. w)
        parse_duration
        none
        (λ d w. w)
        quiet_server
        close_marking
        flags
        [] in
    (kinds started.subject.observers ≡ wanted flags)
    × (((started.storage ≢ nil_storage)
          × (result ≡ (
            returns none,
            close_each
                (map close_marking
                  (storage_resource started.storage ∷ held started.subject.observers))
                [],
          )))
        ⊎ ((started.storage ≡ nil_storage) × (result ≡ (panics, []))))
unfolding init_dependencies new_mem_storage new_file_observer str_eq register new_event_publisher
run-closes_example =
    run-closes no_pgx migrations disk no_files (λ w. w) parse_duration none (λ d w. w) quiet_server
      close_marking flags [] started refl refl
