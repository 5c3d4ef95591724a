-- ===== src/Storage/Mem/Instance.antt =====
-- The in-memory storage behind the interface. Its maps are ranged over in the order `visit`.
use go_musthave_metrics.Base.{
  ◌≡◌, refl, ap, inl, inr, none, some, if◌then◌else◌, arith, Option-cases,
}
use go_musthave_metrics.Base.Text.{Text, str_eq}
use go_musthave_metrics.Base.Maps.{GoMap, lookup, lookup-insert}
use go_musthave_metrics.Base.Words.{Int64, add64}
use go_musthave_metrics.Storage.Interface.{Storage, IsLawful, bumped}
use go_musthave_metrics.Storage.Mem.{
  MemStorage, update_gauge, update_counter, update_metrics, get_gauge, get_counter,
}
use go_musthave_metrics.Storage.Mem.Files.{get_all_metrics}

module _ {F : Type 0} where
  -- `Ping` of memstorage.go returns nil.
  abbrev pub mem_storage :
      (F → Text) → (GoMap Int64 → GoMap Int64) → (GoMap F → GoMap F) → Storage F (MemStorage F)
  mem_storage format_float visit_counters visit_gauges = record {
    update_gauge = λ k v m. (none, update_gauge m k v);
    update_counter = λ k d m. (none, update_counter m k d);
    update_metrics = λ ms m. (none, update_metrics m ms);
    get_gauge = λ k m. (get_gauge m k, m);
    get_counter = λ k m. (get_counter m k, m);
    get_all_metrics =
        λ m. (get_all_metrics format_float (visit_counters m.counters) (visit_gauges m.gauges), m);
    ping = λ m. (none, m);
  }

  pub update_counter-get :
      (m : MemStorage F) (k j : Text) (d : Int64)
      → get_counter (update_counter m k d) j
        ≡ (if str_eq k j then some (bumped (get_counter m k) d) else get_counter m j)
  unfolding get_counter update_counter
  update_counter-get m k j d = elim (Option-cases (lookup k m.counters)) [
    | inl e ↦ rw (e, update_counter) (lookup-insert k j d m.counters)
    | inr (x, e) ↦ rw (e, update_counter) (lookup-insert k j (add64 x d) m.counters)
  ]

  pub update_counter-gauges :
      (m : MemStorage F) (k : Text) (d : Int64) → (update_counter m k d).gauges ≡ m.gauges
  unfolding update_counter
  update_counter-gauges m k d = ground arith

  -- The in-memory storage keeps the interface's contract.
  abbrev pub mem_storage-IsLawful :
      (format_float : F → Text) (vc : GoMap Int64 → GoMap Int64) (vg : GoMap F → GoMap F)
      → IsLawful (mem_storage format_float vc vg)
  unfolding get_gauge get_counter update_gauge
  mem_storage-IsLawful format_float vc vg = record {
    gauge_of = get_gauge;
    counter_of = get_counter;
    reads_gauge = λ k s. refl;
    reads_counter = λ k s. refl;
    sets_gauge = λ k j v s h. lookup-insert k j v s.gauges;
    adds_counter = λ k j d s h. update_counter-get s k j d;
    keeps_counters = λ k j v s. refl;
    keeps_gauges = λ k j d s. ap (lookup j) (update_counter-gauges s k d);
  }
