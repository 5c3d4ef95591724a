-- ===== src/Agent/Reporter/Polls.antt =====
-- What becomes of the rounds that the collector counts.
use go_musthave_metrics.Base.{
  ℕ, ◌+◌, ◌≤◌, ◌≡◌, refl, Bool, false, if◌then◌else◌, Option-cases, inl, inr, none, some, List, [],
  ◌∷◌, arith,
}
use go_musthave_metrics.Base.Results.{Result}
use go_musthave_metrics.Model.Memory.{MemoryMetrics}
use go_musthave_metrics.Storage.Mem.Batch.{sum}
use go_musthave_metrics.Agent.Collector.{collect_from_all_providers, get_metrics, reset_count}
use go_musthave_metrics.Agent.Reporter.{
  Reporting, Step, polls, reads, sends, resets, Reach, here, next,
}

-- The count that a report has given to `Send` and not yet taken off the collector.
abbrev pub unreset : {F : Type 0} → Reporting F → ℕ
unreset r = if r.sent then elim r.held [ none ↦ 0 | some n ↦ n ] else 0

record IsCounted {F : Type 0} (r : Reporting F) : Type 0 where
  within : sum r.counts + r.collector.poll_count ≤ r.rounds + unreset r
  held_within : (n : ℕ) → r.held ≡ some n → n ≤ r.collector.poll_count

module _ {F : Type 0} (is_nonzero : F → Bool) where
  Step-IsCounted : {r s : Reporting F} → Step is_nonzero r s → IsCounted r → IsCounted s
  unfolding collect_from_all_providers get_metrics reset_count
  Step-IsCounted {r} (polls rs) c = record {
    within = omega (arith, c.within);
    held_within = λ n e. ground (arith, c.held_within n e);
  }
  Step-IsCounted {r} (reads e) c = record {
    within = ground (arith, c.within, e);
    held_within = λ n h. ground (arith, h);
  }
  Step-IsCounted {r} (sends n e u) c = record {
    within = ground (arith, c.within, c.held_within n e);
    held_within = λ m h. c.held_within m h;
  }
  Step-IsCounted {r} (resets n e u) c = record {
    within = ground (arith, c.within, c.held_within n e);
    held_within = λ m h. ground (arith, h);
  }

  sent_within : {s : Reporting F} → IsCounted s → sum s.counts ≤ s.rounds
  sent_within {s} c = elim (Option-cases s.held) [
    | inl e ↦ ground (arith, c.within, e)
    | inr (n, e) ↦ ground (arith, c.within, c.held_within n e, e)
  ]

  Reach-IsCounted : {r s : Reporting F} → IsCounted r → Reach is_nonzero r s → IsCounted s
  Reach-IsCounted c here = c
  Reach-IsCounted c (next p s) = Step-IsCounted s (Reach-IsCounted c p)

  -- From a start with nothing counted, and with rounds and reports in any order, the counts given to
  -- `Send` are together no more than the rounds; with the count that the collector still holds they
  -- exceed the rounds at most by the count of a report that is between `Send` and `ResetCount`.
  pub no_poll_counted_twice :
      {r s : Reporting F}
      → r.collector.poll_count ≡ 0
      → r.held ≡ none
      → r.sent ≡ false
      → r.counts ≡ []
      → Reach is_nonzero r s
      → (sum s.counts ≤ s.rounds) × (sum s.counts + s.collector.poll_count ≤ s.rounds + unreset s)
  no_poll_counted_twice {r} {s} z h u e p =
      let c = Reach-IsCounted fresh p in (sent_within c, c.within)
    where
      fresh : IsCounted r
      fresh = record { within = ground (arith, z, u, e); held_within = λ n k. ground (arith, h, k) }

  -- A round that falls inside a report, begun while none was under way, can be lost: it is in no
  -- count that was sent, and the collector holds 0 after it.
  pub poll_lost :
      (r : Reporting F) (rs : List (Result (MemoryMetrics F)))
      → r.held ≡ none
      → (s : Reporting F) × Reach is_nonzero r s
        × (s.rounds ≡ r.rounds + 1)
        × (s.counts ≡ r.collector.poll_count ∷ r.counts)
        × (s.collector.poll_count ≡ 0)
  unfolding get_metrics reset_count
  poll_lost r rs h = (
    _,
    next (next (next (next here (reads h)) (polls rs)) (sends r.collector.poll_count refl refl))
        (resets r.collector.poll_count refl refl),
    refl,
    refl,
    refl,
  )
