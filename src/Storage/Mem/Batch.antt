-- ===== src/Storage/Mem/Batch.antt =====
-- What a batch does to each counter and each gauge, described without the maps.
use mathlib.Core.List.{filter_map, filter_map-cons-none, filter_map-cons-some}
use go_musthave_metrics.Base.{
  ℕ, ◌+◌, ◌%◌, ◌<◌, ◌≡◌, refl, Option, none, some, List, [], ◌∷◌, if◌then◌else◌, arith, ◌&&◌,
  Option-cases, inl, inr, All,
}
use go_musthave_metrics.Base.Text.{Text, str_eq, str_eq_iff}
use go_musthave_metrics.Base.Maps.{lookup, lookup-insert}
use go_musthave_metrics.Base.Words.{Int64, add64, int64_mod}
use go_musthave_metrics.Model.{Metrics, counter, gauge, gauge-ne-counter}
use go_musthave_metrics.Storage.Mem.{
  MemStorage, update_gauge, update_counter, update_metric, update_metrics, get_gauge, get_counter,
}

module _ {F : Type 0} where
  -- The delta that a metric brings to the counter `name`.
  abbrev pub delta_for : Text → Metrics F → Option Int64
  delta_for name metric =
      if str_eq metric.mtype counter && str_eq metric.id name then metric.delta else none

  -- The deltas of a batch for one counter, in order.
  abbrev pub deltas : Text → List (Metrics F) → List Int64
  deltas name = filter_map (delta_for name)

  abbrev value_for : Text → Metrics F → Option F
  value_for name metric =
      if str_eq metric.mtype gauge && str_eq metric.id name then metric.value else none

  -- The last value of a batch for one gauge.
  unfoldable pub last_value : Text → List (Metrics F) → Option F
  last_value name [] = none
  last_value name (x ∷ xs) = elim (last_value name xs) [ some v ↦ some v | none ↦ value_for name x ]

abbrev pub sum : List ℕ → ℕ
sum [] = 0
sum (x ∷ xs) = x + sum xs

abbrev or_zero : Option Int64 → ℕ
or_zero none = 0
or_zero (some x) = x

-- A counter after its deltas: untouched by none, else the sum modulo 2 ^ 64.
abbrev pub counted : Option Int64 → List Int64 → Option Int64
counted old [] = old
counted old (d ∷ ds) = some ((or_zero old + sum (d ∷ ds)) % int64_mod)

abbrev pub InRange : Option Int64 → Type 0
InRange none = Unit {0}
InRange (some x) = x < int64_mod

counted_step :
    (old : Option Int64) (d : Int64) (ds : List Int64)
    → d < int64_mod
    → counted (some ((or_zero old + d) % int64_mod)) ds ≡ counted old (d ∷ ds)
counted_step none d [] h = ground arith
counted_step none d (e ∷ ds) h = ground arith
counted_step (some x) d [] h = ground arith
counted_step (some x) d (e ∷ ds) h = ground arith

module _ {F : Type 0} where
  -- Every delta of the batch is an int64.
  abbrev pub IsInt64Batch : List (Metrics F) → Type 0
  IsInt64Batch = All (λ metric. InRange metric.delta)

  -- A metric dispatches to the single update of its type.
  pub update_metric-dispatch :
      (m : MemStorage F) (x : Metrics F)
      → update_metric m x ≡ (
          if str_eq x.mtype gauge
          then elim x.value [ some v ↦ update_gauge m x.id v | none ↦ m ]
          else if str_eq x.mtype counter
          then elim x.delta [ some d ↦ update_counter m x.id d | none ↦ m ]
          else m)
  unfolding update_metric update_gauge update_counter
  update_metric-dispatch m x = ground arith

  update_counter-counter :
      (m : MemStorage F) (id name : Text) (d : Int64)
      → d < int64_mod
      → lookup name (update_counter m id d).counters ≡ (
          if str_eq id name
          then some ((or_zero (lookup name m.counters) + d) % int64_mod)
          else lookup name m.counters)
  unfolding update_counter add64
  update_counter-counter m id name d h = elim (Option-cases (lookup id m.counters)) [
    | inl e ↦
        rw (e, update_counter)
          (rw (lookup-insert id name d m.counters) (ground (arith, str_eq_iff id name)))
    | inr (x, e) ↦
        rw (e, update_counter)
          (rw (lookup-insert id name ((x + d) % int64_mod) m.counters)
            (ground (arith, str_eq_iff id name)))
  ]

  -- One metric adds its delta to the counter it names, and touches no other.
  update_metric-counter :
      (m : MemStorage F) (x : Metrics F) (name : Text)
      → InRange x.delta
      → lookup name (update_metric m x).counters ≡ elim (delta_for name x) [
        | some d ↦ some ((or_zero (lookup name m.counters) + d) % int64_mod)
        | none ↦ lookup name m.counters
      ]
  update_metric-counter m x name r = elim (Option-cases x.delta) [
    | inl e ↦ rw (update_metric-dispatch m x) (unfold update_gauge in ground arith)
    | inr (d, e) ↦ rw (update_metric-dispatch m x) (
        unfold update_gauge in
        ground (
          arith,
          str_eq_iff x.mtype gauge,
          str_eq_iff x.mtype counter,
          gauge-ne-counter,
          update_counter-counter m x.id name d (ground arith),
        ))
  ]

  delta_for-lt :
      (name : Text) (x : Metrics F) (d : Int64)
      → InRange x.delta
      → delta_for name x ≡ some d
      → d < int64_mod
  delta_for-lt name x d r e = ground arith

  -- After a batch whose deltas are int64, a counter holds its old value and all its deltas, added
  -- modulo 2 ^ 64; a counter that no metric of the batch names is as it was.
  pub update_metrics-counter :
      (m : MemStorage F) (name : Text) (xs : List (Metrics F))
      → IsInt64Batch xs
      → get_counter (update_metrics m xs) name ≡ counted (get_counter m name) (deltas name xs)
  unfolding update_metrics get_counter filter_map
  update_metrics-counter m name [] h = refl
  update_metrics-counter m name (x ∷ xs) h = elim (Option-cases (delta_for name x)) [
    | inl e ↦ rw (update_metrics-counter (update_metric m x) name xs h.1) (
        rw (update_metric-counter m x name h.0, filter_map-cons-none (delta_for name) x xs e)
          (rw e))
    | inr (d, e) ↦ rw (update_metrics-counter (update_metric m x) name xs h.1) (
        rw (update_metric-counter m x name h.0, filter_map-cons-some (delta_for name) x xs e)
          (rw e (
            counted_step (lookup name m.counters) d (filter_map (delta_for name) xs)
              (delta_for-lt name x d h.0 e))))
  ]

  update_metric-gauge :
      (m : MemStorage F) (x : Metrics F) (name : Text)
      → lookup name (update_metric m x).gauges
        ≡ elim (value_for name x) [ some v ↦ some v | none ↦ lookup name m.gauges ]
  unfolding update_counter update_gauge
  update_metric-gauge m x name = elim (Option-cases x.value) [
    | inl e ↦ rw (update_metric-dispatch m x) (ground arith)
    | inr (v, e) ↦
        rw (update_metric-dispatch m x)
          (ground (arith, str_eq_iff x.mtype gauge, lookup-insert x.id name v m.gauges))
  ]

  -- After a batch a gauge holds the last value that the batch gives it; a gauge that the batch gives
  -- no value is as it was.
  pub update_metrics-gauge :
      (m : MemStorage F) (name : Text) (xs : List (Metrics F))
      → get_gauge (update_metrics m xs) name
        ≡ elim (last_value name xs) [ some v ↦ some v | none ↦ get_gauge m name ]
  unfolding update_metrics get_gauge last_value
  update_metrics-gauge m name [] = refl
  update_metrics-gauge m name (x ∷ xs) =
      ground (arith, update_metrics-gauge (update_metric m x) name xs, update_metric-gauge m x name)
