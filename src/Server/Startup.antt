-- ===== src/Server/Startup.antt =====
-- `initStorage`, `initObservers` and `initDependencies` of internal/server/server.go. The database
-- and the disk are steps of a state `W`. On an error the caller ignores the resources.
pub mod Closed
use go_musthave_metrics.Base.{Bool, Option, none, some, List, [], ◌∷◌, ◌++◌, if◌then◌else◌}
use go_musthave_metrics.Base.Text.{Text, codes, str_eq}
use go_musthave_metrics.Base.Results.{Error, Result, ok, err}
use go_musthave_metrics.Config.{ServerFlags, get_retry_delays_as_duration}
use go_musthave_metrics.Retry.{Duration}
use go_musthave_metrics.Observers.{EventPublisherImpl, new_event_publisher, register}
use go_musthave_metrics.Storage.Mem.Files.{Outside}
use go_musthave_metrics.Storage.Mem.Life.{new_mem_storage}
use go_musthave_metrics.Observers.File.{Disk, FileObserver, new_file_observer}
use go_musthave_metrics.Observers.Http.{HttpObserver, new_http_observer}
use go_musthave_metrics.Server.Database.{Pgx, Migrate, new_database, is_connected, migrator_up}

-- The storage of the server: `NewMemStorage`, which is the nil storage where the restore fails, or
-- `NewDBStorage` on a pool with its retry delays.
pub data StorageChoice (Pool : Type 0) : Type 0 where
  memory nil_storage : StorageChoice Pool
  database : Pool → List Duration → StorageChoice Pool

pub data Observer (File : Type 0) : Type 0 where
  metric_logger : Observer File
  file_observer : FileObserver File → Observer File
  http_observer : HttpObserver → Observer File

-- What implements `closableResource`.
pub data Resource (Pool File : Type 0) : Type 0 where
  storage_resource : StorageChoice Pool → Resource Pool File
  file_resource : FileObserver File → Resource Pool File
  http_resource : HttpObserver → Resource Pool File

pub record Dependencies (Pool File : Type 0) : Type 0 where
  pub storage : StorageChoice Pool
  pub subject : EventPublisherImpl (Observer File)
  pub resources : List (Resource Pool File)

module _ {F Pool File W : Type 0} (pgx : Pgx Pool W) (migrate : Migrate W) (disk : Disk File W)
    (files : Outside F) (saved : W → files.Disk) (parse_duration : Text → Result Duration)
    (cfg : ServerFlags) where
  -- `saved` is the disk that `LoadFromFile` reads.
  mem_storage : W → StorageChoice Pool
  mem_storage w = elim (new_mem_storage files cfg (saved w)) [
    | none ↦ nil_storage
    | some life ↦ memory
  ]

  -- `NewDBStorage` fails on retry delays that do not parse.
  db_or_memory : Pool → W → StorageChoice Pool
  unfolding mem_storage
  db_or_memory pool w = elim (get_retry_delays_as_duration parse_duration cfg.retry_delays) [
    | err e ↦ mem_storage w
    | ok delays ↦ database pool delays
  ]

  -- A migration that fails is only logged.
  pub init_storage : W → StorageChoice Pool × W
  unfolding db_or_memory mem_storage
  init_storage w =
      if str_eq cfg.database_dsn []
      then (mem_storage w, w)
      else let (dbase, w1) = new_database pgx cfg.database_dsn w in
        let (connected, w2) = is_connected pgx dbase w1 in
        elim dbase [
          | none ↦ (mem_storage w2, w2)
          | some pool ↦
              if connected
              then (let w3 = (migrator_up migrate cfg.database_dsn (codes "migrations") w2).1 in
                  (db_or_memory pool w3, w3))
              else (mem_storage w2, w2)
        ]

  abbrev Subject : Type 0
  Subject = EventPublisherImpl (Observer File) × List (Resource Pool File)

  -- The observer that writes a file, and then the one that sends requests.
  add_file_observer : Subject → W → Result Subject × W
  add_file_observer (subject, resources) w =
      if str_eq cfg.audit_file []
      then (ok (subject, resources), w)
      else let (r, w') = new_file_observer disk cfg.audit_file w in
        (
          elim r [
            | err e ↦ err (codes "file observer: " ++ e)
            | ok o ↦ ok (register subject (file_observer o), resources ++ file_resource o ∷ [])
          ],
          w',
        )

  add_http_observer : Subject → Result Subject
  add_http_observer (subject, resources) =
      if str_eq cfg.audit_url []
      then ok (subject, resources)
      else elim (new_http_observer parse_duration cfg.audit_url cfg) [
        | err e ↦ err (codes "HTTP observer: " ++ e)
        | ok o ↦ ok (register subject (http_observer o), resources ++ http_resource o ∷ [])
      ]

  init_observers : W → Result Subject × W
  unfolding add_file_observer add_http_observer
  init_observers w =
      let (r, w') = add_file_observer (register new_event_publisher metric_logger, []) w in
      (elim r [ err e ↦ err e | ok subject ↦ add_http_observer subject ], w')

  -- `initStorage` returns no error.
  unfoldable pub init_dependencies : W → Result (Dependencies Pool File) × W
  unfolding init_storage init_observers
  init_dependencies w =
      let (storage, w1) = init_storage w in
      let (r, w2) = init_observers w1 in
      (
        elim r [
          | err e ↦ err (codes "observers: " ++ e)
          | ok (subject, observer_resources) ↦ ok (record {
            storage = storage;
            subject = subject;
            resources = storage_resource storage ∷ observer_resources;
          })
        ],
        w2,
      )
