-- ===== src/Observers/File.antt =====
-- internal/observers/file_observer.go. The disk is a state `W`; the mutex makes each call one step.
pub mod Lines
use go_musthave_metrics.Base.{Option, none, some, ◌++◌}
use go_musthave_metrics.Base.Text.{Text, codes}
use go_musthave_metrics.Base.Results.{Error, Result, ok, err}

-- Package os, on a file that is opened to append to: `OpenFile`, `Write`, `Sync` and `Close`.
pub record Disk (File W : Type 0) : Type 0 where
  pub open_file : Text → W → Result File × W
  pub write : File → Text → W → Option Error × W
  pub sync : File → W → Option Error × W
  pub close : File → W → Option Error × W

-- `file` is nil once it is closed.
pub record FileObserver (File : Type 0) : Type 0 where
  pub file : Option File
  pub file_path : Text

module _ {File W : Type 0} (disk : Disk File W) where
  unfoldable pub new_file_observer : Text → W → Result (FileObserver File) × W
  new_file_observer path w =
      let (r, w') = disk.open_file path w in
      (
        elim r [
          | err e ↦ err (codes "failed to open file: " ++ e)
          | ok f ↦ ok (record { file = some f; file_path = path })
        ],
        w',
      )

  -- A failed `Sync` is only logged; a failed `Close` keeps the file.
  unfoldable pub close_observer : FileObserver File → W → Option Error × (FileObserver File × W)
  close_observer o w = elim o.file [
    | none ↦ (none, (o, w))
    | some f ↦
        let w1 = (disk.sync f w).1 in
        let (e, w2) = disk.close f w1 in
        elim e [
          | some x ↦ (some (codes "close file: " ++ x), (o, w2))
          | none ↦ (none, (record o { file = none }, w2))
        ]
  ]

  -- `marshal` is json.Marshal. Errors are logged; a write to a nil file only returns one.
  unfoldable pub on_metric_processed :
      {Event : Type 0} → (Event → Result Text) → FileObserver File → Event → W → W
  on_metric_processed marshal o event w = elim (marshal event) [
    | err e ↦ w
    | ok json_event ↦ elim o.file [
      | none ↦ w
      | some f ↦ (disk.write f (json_event ++ codes "\n") w).1
    ]
  ]
