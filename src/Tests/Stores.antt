-- ===== src/Tests/Stores.antt =====
-- The storages at concrete values. A float is a number here.
use mathlib.Core.List.{Permᴰ}
use Prim.{∣◌∣₁}
use go_musthave_metrics.Base.{ℕ, ◌≡◌, ◌≢◌, refl, ◌⊎◌, true, false, none, some, List, [], ◌∷◌, arith}
use go_musthave_metrics.Base.Text.{Text, codes, str_eq}
use go_musthave_metrics.Base.Maps.{lookup, Ranges-self}
use go_musthave_metrics.Base.Words.{Int64}
use go_musthave_metrics.Base.Results.{ok}
use go_musthave_metrics.Model.{Metrics, counter, gauge}
use go_musthave_metrics.Storage.Mem.{MemStorage, update_metrics, get_counter, get_gauge}
use go_musthave_metrics.Storage.Mem.Batch.{deltas, counted, update_metrics-counter}
use go_musthave_metrics.Storage.Mem.Order.{update_metrics-perm}
use go_musthave_metrics.Storage.Mem.Files.{
  Outside, IsFaithful, contents, save_to_file, load_from_file,
}
use go_musthave_metrics.Storage.Mem.Files.Restore.{load-save}
use go_musthave_metrics.Storage.Mem.Life.{
  Life, Saver, saving, crashed, here, next, starts, start_periodic_save,
}
use go_musthave_metrics.Storage.Mem.Life.Saves.{saver_safe_until_close}

abbrev hits : Text
hits = codes "hits"

abbrev load : Text
load = codes "load"

abbrev hit : Int64 → Metrics ℕ
hit d = record { id = hits; mtype = counter; delta = some d; value = none; hash = [] }

abbrev loaded : ℕ → Metrics ℕ
loaded v = record { id = load; mtype = gauge; delta = none; value = some v; hash = [] }

abbrev sample : MemStorage ℕ
sample = record { counters = (hits, 3) ∷ []; gauges = (load, 7) ∷ [] }

abbrev nothing : MemStorage ℕ
nothing = record { counters = []; gauges = [] }

abbrev sample_batch : List (Metrics ℕ)
sample_batch = hit 4 ∷ loaded 9 ∷ hit 5 ∷ []

update_metrics-counter_example :
    get_counter (update_metrics sample sample_batch) hits
    ≡ counted (get_counter sample hits) (deltas hits sample_batch)
update_metrics-counter_example =
    update_metrics-counter sample hits sample_batch (omega arith, (tt, (omega arith, tt)))

update_metrics-perm_example :
    get_counter (update_metrics sample (hit 4 ∷ hit 5 ∷ [])) hits
    ≡ get_counter (update_metrics sample (hit 5 ∷ hit 4 ∷ [])) hits
update_metrics-perm_example =
    update_metrics-perm sample hits (hit 4 ∷ hit 5 ∷ []) (hit 5 ∷ hit 4 ∷ [])
      ∣ Permᴰ.swap refl refl ∣₁ (omega arith, (omega arith, tt)) (omega arith, (omega arith, tt))

-- A disk with one file, whose contents are the metrics themselves.
abbrev one_file : Outside ℕ
one_file = record {
  Data = List (Metrics ℕ);
  Disk = List (Metrics ℕ);
  marshal_indent = λ ms. ok ms;
  unmarshal = λ ms. ok ms;
  read_file = λ d p. contents d;
  write_file = λ d p x. (none, x);
}

abbrev one_file-IsFaithful : IsFaithful one_file
one_file-IsFaithful = record { written = λ d p x e. refl; decoded = λ ms x e. cc }

load-save_example :
    let saved = save_to_file one_file sample.counters sample.gauges (codes "m.json") [] in
    let (e, new) = load_from_file one_file (codes "m.json") saved.1 nothing in
    (e ≡ none) × (get_counter new hits ≡ some 3) × (get_gauge new hits ≡ none)
unfolding get_counter get_gauge save_to_file lookup str_eq
load-save_example =
    load-save one_file sample nothing sample.counters sample.gauges (codes "m.json") [] hits
      one_file-IsFaithful (Ranges-self sample.counters (refl, tt))
      (Ranges-self sample.gauges (refl, tt)) refl

abbrev idle_life : Life ℕ
idle_life = record { maps = sample; ticker = false; done = false; savers = [] }

saver_safe_until_close_example :
    ((start_periodic_save idle_life).savers ≡ [])
    ⊎ ((p : Saver) × ((start_periodic_save idle_life).savers ≡ p ∷ []) × (p ≢ crashed))
unfolding start_periodic_save
saver_safe_until_close_example =
    saver_safe_until_close {l = idle_life} refl refl (next here starts) refl

abbrev saving_life : Life ℕ
saving_life = record { maps = sample; ticker = true; done = false; savers = saving ∷ [] }
