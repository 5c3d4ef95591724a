-- ===== src/Tests/Pools.antt =====
-- A batch that is used twice.
use go_musthave_metrics.Base.{ℕ, ◌≡◌, refl, none, some, [], ◌∷◌}
use go_musthave_metrics.Base.Text.{codes}
use go_musthave_metrics.Model.{gauge}
use go_musthave_metrics.ObjPool.{
  Pool, store, new, made, reused, gets, writes, puts, Reach, here, next,
}
use go_musthave_metrics.ObjPool.Owned.{count}
use go_musthave_metrics.Agent.Sender.{batch}
use go_musthave_metrics.Agent.Sender.Batches.{
  MetricsSlice, empty_slice, reset, new_metrics_batch_pool, fill, fill-Got,
}

abbrev dirty : MetricsSlice ℕ
dirty = record {
  slice =
      record { id = codes "Alloc"; mtype = gauge; delta = none; value = some 1; hash = [] } ∷ [];
}

-- The pool after a report that wrote to its batch and put it back.
abbrev returned_once : Pool (MetricsSlice ℕ)
returned_once = record {
  free = 0 ∷ [];
  held = [];
  objects =
      store (store (store (λ i. empty_slice) 0 empty_slice) 0 dirty) 0
        (reset (store (store (λ i. empty_slice) 0 empty_slice) 0 dirty 0));
  fresh = 1;
}

abbrev got_again : Pool (MetricsSlice ℕ)
got_again = record returned_once { free = []; held = 0 ∷ [] }

used_once : Reach empty_slice reset new_metrics_batch_pool returned_once
unfolding new
used_once = next (next (next here (gets made)) (writes [] 0 [] dirty refl)) (puts [] 0 [] refl)

fill-Got_example :
    (fill (got_again.objects 0) ((codes "Sys", 2) ∷ []) 3 ≡ batch ((codes "Sys", 2) ∷ []) 3)
    × (count 0 [] ≡ 0)
    × (count 0 (0 ∷ []) ≡ 1)
    × (count 0 [] ≡ 0)
fill-Got_example =
    fill-Got {p = returned_once} {q = got_again} ((codes "Sys", 2) ∷ []) 3 used_once
      (reused [] 0 [] refl)
