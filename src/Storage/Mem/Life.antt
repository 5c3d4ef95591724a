-- ===== src/Storage/Mem/Life.antt =====
-- The life of a storage: `NewMemStorage`, `StartPeriodicSave` with its goroutine, and `Close`.
pub mod Saves
use go_musthave_metrics.Base.{
  ℕ, suc, ◌≡◌, refl, ◌⊎◌, inl, inr, Bool, true, false, Option, none, some, List, [], ◌∷◌, ◌++◌,
  if◌then◌else◌, arith,
}
use go_musthave_metrics.Base.Text.{Text, codes}
use go_musthave_metrics.Base.Maps.{GoMap}
use go_musthave_metrics.Base.Words.{Int64}
use go_musthave_metrics.Base.Ints.{is_positive}
use go_musthave_metrics.Base.Results.{Error}
use go_musthave_metrics.Config.{ServerFlags}
use go_musthave_metrics.Storage.Mem.{MemStorage}
use go_musthave_metrics.Storage.Mem.Files.{Outside, save_to_file, load_from_file}

-- Where the goroutine of `StartPeriodicSave` stands. At `looping` it is about to read `m.ticker.C`
-- for its select; `crashed` is the nil dereference of that read.
pub data Saver : Type 0 where
  looping selecting saving stopped crashed : Saver

pub record Life (F : Type 0) : Type 0 where
  pub maps : MemStorage F
  -- `m.ticker != nil`
  pub ticker : Bool
  -- `done` is closed
  pub done : Bool
  -- the goroutines started so far, newest first
  pub savers : List Saver

module _ {F : Type 0} where
  -- Under `tickerMu`. A second call while the ticker runs starts nothing.
  unfoldable pub start_periodic_save : Life F → Life F
  start_periodic_save l =
      if l.ticker then l else record l { ticker = true; savers = looping ∷ l.savers }

  -- Under `tickerMu`; `cs` and `gs` are what the loops of `SaveToFile` visit. `done` is closed once.
  pub close :
      (o : Outside F)
      → GoMap Int64
      → GoMap F
      → Text
      → o.Disk
      → Life F
      → Option Error × o.Disk × Life F
  close o cs gs path disk l =
      let l' : Life F = record l { ticker = false; done = true } in
      let (e, disk') = save_to_file o cs gs path disk in
      (elim e [ none ↦ none | some m ↦ some (codes "failed to save on close: " ++ m) ], disk', l')

  -- `none` is the nil storage that a failed load returns.
  unfoldable pub new_mem_storage : (o : Outside F) → ServerFlags → o.Disk → Option (Life F)
  unfolding start_periodic_save
  new_mem_storage o cfg disk =
      let empty : MemStorage F = record { counters = []; gauges = [] } in
      let (e, loaded) =
        if cfg.restore then load_from_file o cfg.file_storage_path disk empty else (none, empty) in
      let fresh : Life F = record { maps = loaded; ticker = false; done = false; savers = [] } in
      elim e [
        | some m ↦ none
        | none ↦ some (if is_positive cfg.store_interval then start_periodic_save fresh else fresh)
      ]

  -- One step of one goroutine, with the ticker and `done` as it finds them. A receive from the
  -- stopped ticker of an earlier select may still deliver a tick.
  pub data Turn (l : Life F) : Saver → Saver → Type 0 where
    enters : l.ticker ≡ true → Turn l looping selecting
    crashes : l.ticker ≡ false → Turn l looping crashed
    ticks : Turn l selecting saving
    quits : l.done ≡ true → Turn l selecting stopped
    saves : Turn l saving looping

  pub data Step (l : Life F) : Life F → Type 0 where
    starts : Step l (start_periodic_save l)
    closes : Step l (record l { ticker = false; done = true })
    turns :
        (before after : List Saver) {p q : Saver}
        → l.savers ≡ before ++ p ∷ after
        → Turn l p q
        → Step l (record l { savers = before ++ q ∷ after })

  pub data Reach (l : Life F) : Life F → Type 0 where
    here : Reach l l
    next : {u v : Life F} → Reach l u → Step u v → Reach l v
