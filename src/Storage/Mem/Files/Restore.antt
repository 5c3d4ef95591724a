-- ===== src/Storage/Mem/Files/Restore.antt =====
-- What was saved is what a later start loads.
use go_musthave_metrics.Base.{
  ◌≡◌, refl, inl, inr, Option, none, some, List, [], ◌∷◌, ◌++◌, map, arith,
}
use go_musthave_metrics.Base.Text.{Text, str_eq_iff, str_eq_refl}
use go_musthave_metrics.Base.Maps.{GoMap, lookup, insert, lookup-insert, IsUnique, Ranges}
use go_musthave_metrics.Base.Words.{Int64}
use go_musthave_metrics.Base.Results.{Result-cases}
use go_musthave_metrics.Model.{Metrics, counter, gauge, gauge-ne-counter}
use go_musthave_metrics.Storage.Mem.{MemStorage, get_gauge, get_counter}
use go_musthave_metrics.Storage.Mem.Files.{
  Outside, IsFaithful, counter_metric, gauge_metric, collect, restore_metric, restore, save_to_file,
  load_from_file,
}

-- The saved value where there is one, else the value before.
abbrev or_else {ℓ} : {A : Type ℓ} → Option A → Option A → Option A
or_else (some a) o = some a
or_else none o = o

module _ {F : Type 0} where
  restore-append :
      (m : MemStorage F) (xs ys : List (Metrics F))
      → restore m (xs ++ ys) ≡ restore (restore m xs) ys
  unfolding restore
  restore-append m [] ys = refl
  restore-append m (x ∷ xs) ys = restore-append (restore_metric m x) xs ys

  restore_counter :
      (m : MemStorage F) (id : Text) (d : Int64)
      → restore_metric m (counter_metric (id, d)) ≡ record m { counters = insert id d m.counters }
  unfolding restore_metric
  restore_counter m id d = ground (arith, str_eq_refl counter)

  restore_gauge :
      (m : MemStorage F) (id : Text) (v : F)
      → restore_metric m (gauge_metric (id, v)) ≡ record m { gauges = insert id v m.gauges }
  unfolding restore_metric
  restore_gauge m id v = ground (arith, str_eq_refl gauge, gauge-ne-counter)

  -- Distinct counters are restored to their values, and no gauge changes.
  restore_counters :
      (m : MemStorage F) (cs : GoMap Int64) (k : Text)
      → IsUnique cs
      → (lookup k (restore m (map counter_metric cs)).counters
          ≡ or_else (lookup k cs) (lookup k m.counters))
        × ((restore m (map counter_metric cs)).gauges ≡ m.gauges)
  unfolding restore lookup
  restore_counters m [] k u = (refl, refl)
  restore_counters m ((j, d) ∷ cs) k u = ground (
    arith,
    restore_counter m j d,
    str_eq_iff j k,
    lookup-insert j k d m.counters,
    restore_counters (record m { counters = insert j d m.counters }) cs k u.1,
  )

  restore_gauges :
      (m : MemStorage F) (gs : GoMap F) (k : Text)
      → IsUnique gs
      → (lookup k (restore m (map gauge_metric gs)).gauges
          ≡ or_else (lookup k gs) (lookup k m.gauges))
        × ((restore m (map gauge_metric gs)).counters ≡ m.counters)
  unfolding restore lookup
  restore_gauges m [] k u = (refl, refl)
  restore_gauges m ((j, v) ∷ gs) k u = ground (
    arith,
    restore_gauge m j v,
    str_eq_iff j k,
    lookup-insert j k v m.gauges,
    restore_gauges (record m { gauges = insert j v m.gauges }) gs k u.1,
  )

  restore-collect :
      (m old : MemStorage F) (cs : GoMap Int64) (gs : GoMap F) (k : Text)
      → Ranges cs m.counters
      → Ranges gs m.gauges
      → (get_counter (restore old (collect cs gs)) k
          ≡ or_else (get_counter m k) (get_counter old k))
        × (get_gauge (restore old (collect cs gs)) k ≡ or_else (get_gauge m k) (get_gauge old k))
  unfolding collect get_counter get_gauge
  restore-collect m old cs gs k hc hg =
      let mid = restore old (map counter_metric cs) in
      rw (restore-append old (map counter_metric cs) (map gauge_metric gs)) (
        ground (
          arith,
          restore_counters old cs k hc.once,
          restore_gauges mid gs k hg.once,
          hc.same k,
          hg.same k,
        ))

  -- When JSON and files read back as they were written, and the loops of the save visit the
  -- entries of the two maps once each: after a save that reported no error, a load of that file
  -- into any storage reports none, and each counter and gauge has the saved value, or its old one
  -- where none was saved.
  pub load-save :
      (o : Outside F) (m old : MemStorage F) (cs : GoMap Int64) (gs : GoMap F) (path : Text)
      (disk : o.Disk) (k : Text)
      → IsFaithful o
      → Ranges cs m.counters
      → Ranges gs m.gauges
      → (save_to_file o cs gs path disk).0 ≡ none
      → let (e, new) = load_from_file o path (save_to_file o cs gs path disk).1 old in
        (e ≡ none)
        × (get_counter new k ≡ or_else (get_counter m k) (get_counter old k))
        × (get_gauge new k ≡ or_else (get_gauge m k) (get_gauge old k))
  unfolding save_to_file load_from_file
  load-save o m old cs gs path disk k f hc hg saved =
      elim (Result-cases (o.marshal_indent (collect cs gs))) [
        | inl (x, e) ↦ ground (
          arith,
          f.written disk path x,
          f.decoded (collect cs gs) x,
          restore-collect m old cs gs k hc hg,
        )
        | inr (msg, e) ↦ ground arith
      ]
