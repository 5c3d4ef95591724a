-- ===== src/Server/Run.antt =====
-- `Run` of internal/server/server.go, and cmd/server/main.go. The signal, the goroutine of the HTTP
-- server and that of pprof are steps of a state `W`.
pub mod Closes
use go_musthave_metrics.Base.{
  ℕ, Bool, true, false, if◌then◌else◌, Option, none, some, List, [], ◌∷◌, ◌++◌, map,
}
use go_musthave_metrics.Base.Text.{Text, codes}
use go_musthave_metrics.Base.Results.{Error, Result, ok, err}
use go_musthave_metrics.Config.{ServerFlags}
use go_musthave_metrics.Retry.{Duration}
use go_musthave_metrics.Storage.Mem.Files.{Outside}
use go_musthave_metrics.Observers.File.{Disk}
use go_musthave_metrics.Server.Database.{Pgx, Migrate}
use go_musthave_metrics.Server.Startup.{
  StorageChoice, memory, nil_storage, database, Resource, Dependencies, init_dependencies,
}
use go_musthave_metrics.Server.Shutdown.{Closer, HttpServer, before_close, wait_for_shutdown}

-- How `main` ends: with an exit code, or never, as it waits for the pprof server.
pub data Ending : Type 0 where
  exits : ℕ → Ending
  waits : Ending

-- How `Run` ends. The loop over the resources begins with the storage; a call of `Close` on the nil
-- interface panics.
pub data Ran : Type 0 where
  returns : Option Error → Ran
  panics : Ran

unfoldable pub is_nil : {Pool : Type 0} → StorageChoice Pool → Bool
is_nil nil_storage = true
is_nil memory = false
is_nil (database pool delays) = false

-- `template` is the error of `template.Parse` in `NewMainPageService`, and `serves` is all that
-- happens from the start of the server to the signal, a `ListenAndServe` that fails included, which is
-- only logged.
module _ {F Pool File W : Type 0} (pgx : Pgx Pool W) (migrate : Migrate W) (disk : Disk File W)
    (files : Outside F) (saved : W → files.Disk) (parse_duration : Text → Result Duration)
    (template : Option Error) (serves : Dependencies Pool File → W → W) (server : HttpServer W)
    (close : Resource Pool File → Closer W) where
  -- The error of `createRouter`.
  unfoldable router_error : Option Error
  router_error = elim template [ none ↦ none | some e ↦ some (codes "main page service: " ++ e) ]

  unfoldable pub run : ServerFlags → W → Ran × W
  unfolding router_error
  run cfg w =
      let (r, w1) = init_dependencies pgx migrate disk files saved parse_duration cfg w in
      elim r [
        | err e ↦ (returns (some (codes "failed to init dependencies: " ++ e)), w1)
        | ok deps ↦ elim router_error [
          | some e ↦ (returns (some (codes "failed to create router: " ++ e)), w1)
          | none ↦
              let w2 = serves deps w1 in
              let (errors, w3) = wait_for_shutdown server (map close deps.resources) w2 in
              if is_nil deps.storage
              then (panics, (before_close server w2).1)
              else (returns none, w3)
        ]
      ]

  -- `logger` is the error of `logger.Initialize`. The deferred `Close` has no storage to close, and
  -- `os.Exit` skips it.
  pub main : (Text → Option Error) → ServerFlags → W → Ending × W
  unfolding run
  main logger cfg w = elim (logger cfg.log_level) [
    | some e ↦ (exits 1, w)
    | none ↦
        let (e, w') = run cfg w in
        (elim e [ panics ↦ exits 2 | returns (some x) ↦ exits 1 | returns none ↦ waits ], w')
  ]
