-- ===== src/Agent/Sender/Delivery.antt =====
-- What a delivered batch does to the server's storage.
use mathlib.Core.List.{filter_map, filter_map-cons-none}
use go_musthave_metrics.Base.{
  zero, suc, ◌<◌, ◌≡◌, refl, ap, ◌∙◌, ◌⊎◌, inl, inr, List, none, some, [], ◌∷◌, ◌++◌, map, arith,
  ◌==◌, if◌then◌else◌,
}
use go_musthave_metrics.Base.Text.{Text, codes, str_eq, str_eq_iff, str_eq_refl}
use go_musthave_metrics.Base.Maps.{GoMap, lookup, IsUnique}
use go_musthave_metrics.Base.Results.{Result, ok}
use go_musthave_metrics.Model.{Metrics, counter, gauge, gauge-ne-counter, counter-ne-gauge}
use go_musthave_metrics.Agent.Sender.{gauge_entry, poll_count_entry, batch, send}
use go_musthave_metrics.Storage.Mem.Batch.{
  delta_for, deltas, last_value, counted, IsInt64Batch, update_metrics-gauge,
  update_metrics-counter,
}
use go_musthave_metrics.Storage.Mem.{MemStorage, update_metrics, get_gauge, get_counter}
use go_musthave_metrics.Base.Words.{Int64, int64_mod}

abbrev pub poll_count : Text
poll_count = codes "PollCount"

deltas-poll_count :
    (F : Type 0) (d : Int64) (name : Text)
    → deltas {F = F} name (poll_count_entry d)
      ≡ (if d == 0 then [] else if str_eq poll_count name then d ∷ [] else [])
unfolding poll_count_entry filter_map
deltas-poll_count F d name = ground (arith, str_eq_refl counter)

module _ {F : Type 0} where
  last_value-batch :
      (es : GoMap F) (d : Int64) (name : Text)
      → IsUnique es
      → last_value name (map gauge_entry es ++ poll_count_entry d) ≡ lookup name es
  unfolding last_value gauge_entry poll_count_entry lookup
  last_value-batch [] d name u = ground (arith, counter-ne-gauge)
  last_value-batch ((k, v) ∷ es) d name u =
      ground (arith, last_value-batch es d name u.1, str_eq_iff k name, str_eq_refl gauge)

  deltas-batch :
      (es : GoMap F) (d : Int64) (name : Text)
      → deltas name (map gauge_entry es ++ poll_count_entry d)
        ≡ deltas {F = F} name (poll_count_entry d)
  deltas-batch [] d name = refl
  deltas-batch (e ∷ es) d name =
      filter_map-cons-none (delta_for name) (gauge_entry e)
        (map gauge_entry es ++ poll_count_entry d)
        (unfold gauge_entry in ground (arith, gauge-ne-counter))
      ∙ deltas-batch es d name

  entries-IsInt64Batch :
      (es : GoMap F) (d : Int64)
      → d < int64_mod
      → IsInt64Batch (map gauge_entry es ++ poll_count_entry d)
  unfolding gauge_entry poll_count_entry
  entries-IsInt64Batch [] d h = ground arith
  entries-IsInt64Batch (e ∷ es) d h = (tt, entries-IsInt64Batch es d h)

  -- A report is posted and ends as its post does, or there is nothing to report.
  pub send-cases :
      {S : Type 0} (post : List (Metrics F) → S → Result Text × S) (es : GoMap F) (d : Int64)
      (s s' : S) (t : Text)
      → post (batch es d) s ≡ (ok t, s')
      → (send post es d s ≡ (none, s')) ⊎ ((es ≡ []) × (d ≡ 0) × (send post es d s ≡ (none, s)))
  unfolding send batch poll_count_entry
  send-cases post [] zero s s' t e = inr (refl, refl, refl)
  send-cases post [] (suc d) s s' t e = inl (ground (arith, e))
  send-cases post (x ∷ es) d s s' t e = inl (ground (arith, e))

  -- A report with distinct names and an int64 poll count, applied by the in-memory storage, sets
  -- each measured gauge and no other, adds the poll count to the counter PollCount, and touches no
  -- other counter.
  pub delivered_batch :
      (m : MemStorage F) (es : GoMap F) (d : Int64) (name : Text)
      → IsUnique es
      → d < int64_mod
      → (get_gauge (update_metrics m (batch es d)) name
          ≡ elim (lookup name es) [ some v ↦ some v | none ↦ get_gauge m name ])
        × (get_counter (update_metrics m (batch es d)) name
            ≡ counted
                (get_counter m name)
                (if d == 0 then [] else if str_eq poll_count name then d ∷ [] else []))
  unfolding batch
  delivered_batch m es d name u h = (
    rw (update_metrics-gauge m name (map gauge_entry es ++ poll_count_entry d))
        (rw (last_value-batch es d name u)),
    update_metrics-counter m name (map gauge_entry es ++ poll_count_entry d)
          (entries-IsInt64Batch es d h)
        ∙ ap (counted (get_counter m name)) (deltas-batch es d name ∙ deltas-poll_count F d name),
  )
