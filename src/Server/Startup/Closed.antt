-- ===== src/Server/Startup/Closed.antt =====
-- What the server closes at the end, against what it has opened at the start.
use go_musthave_metrics.Base.{◌≡◌, List, [], ◌∷◌, ◌++◌, arith, if◌then◌else◌}
use go_musthave_metrics.Base.Text.{Text, str_eq}
use go_musthave_metrics.Base.Results.{Result, ok}
use go_musthave_metrics.Config.{ServerFlags}
use go_musthave_metrics.Retry.{Duration}
use go_musthave_metrics.Observers.{new_event_publisher, register}
use go_musthave_metrics.Storage.Mem.Files.{Outside}
use go_musthave_metrics.Observers.File.{Disk}
use go_musthave_metrics.Server.Database.{Pgx, Migrate}
use go_musthave_metrics.Server.Startup.{
  Observer, metric_logger, file_observer, http_observer, Resource, storage_resource, file_resource,
  http_resource, Dependencies, init_observers, add_file_observer, add_http_observer, init_storage,
  init_dependencies,
}

-- What an observer holds open.
abbrev pub held : {Pool File : Type 0} → List (Observer File) → List (Resource Pool File)
held [] = []
held (metric_logger ∷ os) = held os
held (file_observer o ∷ os) = file_resource o ∷ held os
held (http_observer o ∷ os) = http_resource o ∷ held os

-- The kinds of observers that the flags ask for.
pub data Kind : Type 0 where
  logs writes_file sends : Kind

abbrev pub kinds : {File : Type 0} → List (Observer File) → List Kind
kinds [] = []
kinds (metric_logger ∷ os) = logs ∷ kinds os
kinds (file_observer o ∷ os) = writes_file ∷ kinds os
kinds (http_observer o ∷ os) = sends ∷ kinds os

abbrev pub wanted : ServerFlags → List Kind
wanted cfg =
    logs
    ∷ ((if str_eq cfg.audit_file [] then [] else writes_file ∷ [])
        ++ (if str_eq cfg.audit_url [] then [] else sends ∷ []))

module _ {F Pool File W : Type 0} (pgx : Pgx Pool W) (migrate : Migrate W) (disk : Disk File W)
    (files : Outside F) (saved : W → files.Disk) (parse_duration : Text → Result Duration)
    (cfg : ServerFlags) where
  -- A server that starts has the logging observer and one observer for each of the audit file and
  -- the audit URL that its flags name, and the resources that it hands to the shutdown are its
  -- storage and then what these observers hold, in their order.
  pub init_dependencies-held :
      (d : Dependencies Pool File) (w : W)
      → (init_dependencies pgx migrate disk files saved parse_duration cfg w).0 ≡ ok d
      → (d.resources ≡ storage_resource d.storage ∷ held d.subject.observers)
        × (kinds d.subject.observers ≡ wanted cfg)
        × (d.storage ≡ (init_storage pgx migrate disk files saved parse_duration cfg w).0)
  unfolding init_dependencies init_storage init_observers add_file_observer add_http_observer
      register new_event_publisher
  init_dependencies-held d w e = ground arith
