-- ===== src/Storage/Mem.antt =====
-- internal/repository/memstorage/memstorage.go: the two maps that the mutex guards. Every method
-- holds the mutex from its first line to its return, so each is one step on this record.
pub mod Batch
pub mod Order
pub mod Files
pub mod Life
pub mod Instance
use go_musthave_metrics.Base.{Option, none, some, List, [], ◌∷◌, if◌then◌else◌}
use go_musthave_metrics.Base.Text.{Text, str_eq}
use go_musthave_metrics.Base.Maps.{GoMap, lookup, insert}
use go_musthave_metrics.Base.Words.{Int64, add64}
use go_musthave_metrics.Model.{Metrics, counter, gauge}

pub record MemStorage (F : Type 0) : Type 0 where
  pub counters : GoMap Int64
  pub gauges : GoMap F

module _ {F : Type 0} where
  pub update_gauge : MemStorage F → Text → F → MemStorage F
  update_gauge m name value = record m { gauges = insert name value m.gauges }

  unfoldable pub update_counter : MemStorage F → Text → Int64 → MemStorage F
  update_counter m name value = elim (lookup name m.counters) [
    | some existing ↦ record m { counters = insert name (add64 existing value) m.counters }
    | none ↦ record m { counters = insert name value m.counters }
  ]

  -- The body of the loop of `UpdateMetrics`; a nil pointer or another type changes nothing.
  unfoldable pub update_metric : MemStorage F → Metrics F → MemStorage F
  update_metric m metric =
      if str_eq metric.mtype gauge
      then elim metric.value [
        | some value ↦ record m { gauges = insert metric.id value m.gauges }
        | none ↦ m
      ]
      else if str_eq metric.mtype counter
      then elim metric.delta [
        | some delta ↦ elim (lookup metric.id m.counters) [
          | some existing ↦ record m {
            counters = insert metric.id (add64 existing delta) m.counters;
          }
          | none ↦ record m { counters = insert metric.id delta m.counters }
        ]
        | none ↦ m
      ]
      else m

  unfoldable pub update_metrics : MemStorage F → List (Metrics F) → MemStorage F
  update_metrics m [] = m
  update_metrics m (metric ∷ metrics) = update_metrics (update_metric m metric) metrics

  unfoldable pub get_gauge : MemStorage F → Text → Option F
  get_gauge m name = lookup name m.gauges

  unfoldable pub get_counter : MemStorage F → Text → Option Int64
  get_counter m name = lookup name m.counters
