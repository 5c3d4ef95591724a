-- ===== src/Agent/Sender/Batches.antt =====
-- internal/agent/sender/pools.go, and how `send` of metric_service.go fills a batch of the pool. A
-- slice is the list of its elements; `send` never stores the slice that it grew in its wrapper.
use mathlib.Core.List.{append_assoc, append-nil}
use go_musthave_metrics.Base.{ℕ, ◌≡◌, refl, ap, sym, ◌∙◌, List, [], ◌∷◌, ◌++◌, map}
use go_musthave_metrics.Base.Maps.{GoMap}
use go_musthave_metrics.Base.Words.{Int64}
use go_musthave_metrics.Model.{Metrics}
use go_musthave_metrics.ObjPool.{Pool, new, Got, Reach}
use go_musthave_metrics.ObjPool.Owned.{count, clean_and_alone}
use go_musthave_metrics.Agent.Sender.{gauge_entry, poll_count_entry, batch}

pub record MetricsSlice (F : Type 0) : Type 0 where
  pub slice : List (Metrics F)

module _ {F : Type 0} where
  abbrev pub empty_slice : MetricsSlice F
  empty_slice = record { slice = [] }

  -- `m.Slice = m.Slice[:0]`
  abbrev pub reset : MetricsSlice F → MetricsSlice F
  reset m = record m { slice = [] }

  abbrev pub new_metrics_batch_pool : Pool (MetricsSlice F)
  new_metrics_batch_pool = new empty_slice

  -- The loop that appends the gauges, and the poll count after it.
  append_gauges : List (Metrics F) → GoMap F → List (Metrics F)
  append_gauges slice [] = slice
  append_gauges slice (e ∷ entries) = append_gauges (slice ++ gauge_entry e ∷ []) entries

  pub fill : MetricsSlice F → GoMap F → Int64 → List (Metrics F)
  unfolding append_gauges
  fill m entries delta = append_gauges m.slice entries ++ poll_count_entry delta

  append_gauges-map :
      (slice : List (Metrics F)) (entries : GoMap F)
      → append_gauges slice entries ≡ slice ++ map gauge_entry entries
  unfolding append_gauges
  append_gauges-map slice [] = sym (append-nil slice)
  append_gauges-map slice (e ∷ entries) =
      append_gauges-map (slice ++ gauge_entry e ∷ []) entries
      ∙ append_assoc slice (gauge_entry e ∷ []) (map gauge_entry entries)

  -- Whatever the reports did with the pool before, a report that gets a batch of it fills it with
  -- exactly its own metrics, and holds it alone.
  pub fill-Got :
      {p q : Pool (MetricsSlice F)} {i : ℕ} (entries : GoMap F) (delta : Int64)
      → Reach empty_slice reset new_metrics_batch_pool p
      → Got empty_slice reset p i q
      → (fill (q.objects i) entries delta ≡ batch entries delta)
        × (count i p.held ≡ 0)
        × (count i q.held ≡ 1)
        × (count i q.free ≡ 0)
  unfolding fill batch
  fill-Got {q} {i} entries delta r g =
      let (clean, free_before, held_once, not_free) =
        clean_and_alone empty_slice reset (λ m. m.slice ≡ []) refl (λ m. refl) empty_slice r g in
      (
        ap (λ gs. gs ++ poll_count_entry delta)
            (append_gauges-map (q.objects i).slice entries
              ∙ ap (λ s. s ++ map gauge_entry entries) clean),
        free_before,
        held_once,
        not_free,
      )
