-- ===== src/Agent/Sender.antt =====
-- internal/agent/sender/metric_service.go: the batch that one report sends. The pool of batches
-- only recycles memory. `post` is the HTTP client's Post on a state `S`.
pub mod Delivery
pub mod Batches
use go_musthave_metrics.Base.{
  ℕ, Bool, Option, none, some, List, [], ◌∷◌, ◌++◌, map, ◌==◌, length, ◌&&◌, if◌then◌else◌,
}
use go_musthave_metrics.Base.Text.{Text, codes}
use go_musthave_metrics.Base.Maps.{GoMap}
use go_musthave_metrics.Base.Words.{Int64}
use go_musthave_metrics.Base.Results.{Error, Result, ok, err}
use go_musthave_metrics.Model.{Metrics, counter, gauge}

-- `len(x) == 0`
abbrev is_empty {ℓ} : {A : Type ℓ} → List A → Bool
is_empty xs = length xs == 0

module _ {F : Type 0} where
  pub gauge_entry : Text × F → Metrics F
  gauge_entry (name, value) = record {
    id = name;
    mtype = gauge;
    delta = none;
    value = some value;
    hash = [];
  }

  pub poll_count_entry : Int64 → List (Metrics F)
  poll_count_entry delta =
      if delta == 0
      then []
      else record {
        id = codes "PollCount";
        mtype = counter;
        delta = some delta;
        value = none;
        hash = [];
      }
        ∷ []

  -- `entries` is what the loop over the map visits.
  pub batch : GoMap F → Int64 → List (Metrics F)
  unfolding gauge_entry poll_count_entry
  batch entries delta = map gauge_entry entries ++ poll_count_entry delta

  unfoldable pub send :
      {S : Type 0}
      → (List (Metrics F) → S → Result Text × S)
      → GoMap F
      → Int64
      → S
      → Option Error × S
  unfolding batch
  send post entries delta s =
      if is_empty entries && delta == 0
      then (none, s)
      else if is_empty (batch entries delta)
      then (none, s)
      else (let (r, s') = post (batch entries delta) s in
          (elim r [ err e ↦ some e | ok t ↦ none ], s'))
