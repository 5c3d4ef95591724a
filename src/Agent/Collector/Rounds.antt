-- ===== src/Agent/Collector/Rounds.antt =====
-- What a merge keeps and what it drops.
use go_musthave_metrics.Base.{◌≡◌, refl, Bool, false, List, [], ◌∷◌, if◌then◌else◌}
use go_musthave_metrics.Model.Memory.{MemoryMetrics}
use go_musthave_metrics.Agent.Collector.{is_zero, pick_list, merge_metrics}

module _ {F : Type 0} where
  -- The thirty floats of a measurement, in the order of the struct.
  pub floats : MemoryMetrics F → List F
  floats m =
      m.alloc ∷ m.buck_hash_sys ∷ m.frees ∷ m.gccpu_fraction ∷ m.gc_sys ∷ m.heap_alloc ∷ m.heap_idle
      ∷ m.heap_inuse ∷ m.heap_objects ∷ m.heap_released ∷ m.heap_sys ∷ m.last_gc ∷ m.lookups
      ∷ m.m_cache_inuse ∷ m.m_cache_sys ∷ m.m_span_inuse ∷ m.m_span_sys ∷ m.mallocs ∷ m.next_gc
      ∷ m.num_forced_gc ∷ m.num_gc ∷ m.other_sys ∷ m.pause_total_ns ∷ m.stack_inuse ∷ m.stack_sys
      ∷ m.sys ∷ m.total_alloc ∷ m.random_value ∷ m.total_memory ∷ m.free_memory ∷ []

  -- Field by field, the second list where it is not zero.
  abbrev pub overlay : (F → Bool) → List F → List F → List F
  overlay nz (o ∷ os) (n ∷ ns) = (if nz n then n else o) ∷ overlay nz os ns
  overlay nz os ns = []

  pick_list-elim :
      (nz : F → Bool) (new old : List F)
      → pick_list nz new old ≡ elim new [ [] ↦ old | x ∷ xs ↦ x ∷ xs ]
  pick_list-elim nz [] old = refl
  pick_list-elim nz (x ∷ xs) old = refl

  -- A merge into a measurement that is not zero takes each float of the new one that is not 0, and
  -- its processors if it has any, and keeps the rest.
  pub merge_metrics-overlay :
      (nz : F → Bool) (old new : MemoryMetrics F)
      → is_zero nz old ≡ false
      → (floats (merge_metrics nz old new) ≡ overlay nz (floats old) (floats new))
        × ((merge_metrics nz old new).cpu_utilization
            ≡ elim new.cpu_utilization [ [] ↦ old.cpu_utilization | x ∷ xs ↦ x ∷ xs ])
  unfolding merge_metrics floats
  merge_metrics-overlay nz old new h =
      rw (h, merge_metrics) (refl, pick_list-elim nz new.cpu_utilization old.cpu_utilization)
