-- ===== src/Agent/Providers/Rounds.antt =====
-- What the collector holds after its first round.
use go_musthave_metrics.Base.{
  ℕ, ◌≡◌, refl, sym, arith, ◌||◌, Bool, Bool-cases, inl, inr, true, false, Option, none, some, List,
  [], ◌∷◌, if◌then◌else◌,
}
use go_musthave_metrics.Base.Results.{Error, Result, ok, err}
use go_musthave_metrics.Model.Memory.{MemoryMetrics}
use go_musthave_metrics.Agent.Collector.{
  is_zero, merge_metrics, merge_all, collect_from_all_providers,
}
use go_musthave_metrics.Agent.Providers.{
  MemStats, VirtualMemory, zero_metrics, runtime_metrics, collect_runtime, collect_gopsutil,
}

-- The total and the free memory, and the processors; zeros where one of the calls fails.
abbrev system_part :
    {F : Type 0} → (ℕ → F) → Option Error → Result VirtualMemory → Result (List F) → F × F × List F
system_part float none (ok v) (ok percents) = (float v.total, float v.free, percents)
system_part float none (ok v) (err e) = (float 0, float 0, [])
system_part float none (err e) percents = (float 0, float 0, [])
system_part float (some e) v percents = (float 0, float 0, [])

-- All that the two providers measure.
abbrev pub measured :
    {F : Type 0}
    → (ℕ → F)
    → MemStats F
    → F
    → Option Error
    → Result VirtualMemory
    → Result (List F)
    → MemoryMetrics F
measured float m random ctx_err v percents = record {
  alloc = float m.alloc;
  buck_hash_sys = float m.buck_hash_sys;
  frees = float m.frees;
  gccpu_fraction = m.gccpu_fraction;
  gc_sys = float m.gc_sys;
  heap_alloc = float m.heap_alloc;
  heap_idle = float m.heap_idle;
  heap_inuse = float m.heap_inuse;
  heap_objects = float m.heap_objects;
  heap_released = float m.heap_released;
  heap_sys = float m.heap_sys;
  last_gc = float m.last_gc;
  lookups = float m.lookups;
  m_cache_inuse = float m.m_cache_inuse;
  m_cache_sys = float m.m_cache_sys;
  m_span_inuse = float m.m_span_inuse;
  m_span_sys = float m.m_span_sys;
  mallocs = float m.mallocs;
  next_gc = float m.next_gc;
  num_forced_gc = float m.num_forced_gc;
  num_gc = float m.num_gc;
  other_sys = float m.other_sys;
  pause_total_ns = float m.pause_total_ns;
  stack_inuse = float m.stack_inuse;
  stack_sys = float m.stack_sys;
  sys = float m.sys;
  total_alloc = float m.total_alloc;
  random_value = random;
  total_memory = (system_part float ctx_err v percents).0;
  free_memory = (system_part float ctx_err v percents).1;
  cpu_utilization = (system_part float ctx_err v percents).2;
}

module _ {F : Type 0} (float : ℕ → F) (is_nonzero : F → Bool) where
  -- The float64 of an unsigned integer is 0 only as the float64 of 0 is.
  pub record Converts : Type 0 where
    pub zero_float : is_nonzero (float 0) ≡ false
    pub only_zero : (n : ℕ) → is_nonzero (float n) ≡ false → float n ≡ float 0

  pick_float : Converts → (n : ℕ) → (if is_nonzero (float n) then float n else float 0) ≡ float n
  pick_float c n = elim (Bool-cases (is_nonzero (float n))) [
    | inl nonzero ↦ rw nonzero refl
    | inr zero_value ↦ rw zero_value (sym (c.only_zero n zero_value))
  ]

  zero_metrics-is_zero : Converts → is_zero is_nonzero (zero_metrics float) ≡ true
  unfolding is_zero
  zero_metrics-is_zero c = rw c.zero_float refl

  merge-runtime :
      (m : MemStats F) (random : F)
      → Converts
      → merge_metrics is_nonzero (zero_metrics float) (runtime_metrics float m random)
        ≡ runtime_metrics float m random
  unfolding merge_metrics
  merge-runtime m random c = rw (zero_metrics-is_zero c) refl

  merge-system :
      (m : MemStats F) (random : F) (v : VirtualMemory) (percents : List F)
      → Converts
      → is_zero is_nonzero (runtime_metrics float m random) ≡ false
      → merge_metrics is_nonzero (runtime_metrics float m random) (record (zero_metrics float) {
        total_memory = float v.total;
        free_memory = float v.free;
        cpu_utilization = percents;
      })
        ≡ record (runtime_metrics float m random) {
          total_memory = float v.total;
          free_memory = float v.free;
          cpu_utilization = percents;
        }
  unfolding merge_metrics
  merge-system m random v [] c nz =
      rw (nz, c.zero_float, pick_float c v.total, pick_float c v.free) refl
  merge-system m random v (p ∷ ps) c nz =
      rw (nz, c.zero_float, pick_float c v.total, pick_float c v.free) refl

  not_zero :
      (m : MemStats F) (random : F)
      → (is_nonzero (float m.alloc)
          || (is_nonzero (float m.sys) || is_nonzero (float m.total_alloc)))
        ≡ true
      → is_zero is_nonzero (runtime_metrics float m random) ≡ false
  unfolding is_zero
  not_zero m random h = ground (arith, h)

  -- After its first round the collector holds every number of package runtime, and the memory and
  -- the processors of gopsutil, or none of these if gopsutil fails, when the context lasts for
  -- package runtime, some of Alloc, Sys and TotalAlloc is not 0, and a float64 is 0 only for 0.
  pub first_round :
      (m : MemStats F) (random : F) (ctx_err : Option Error) (v : Result VirtualMemory)
      (percents : Result (List F)) (polls : ℕ)
      → Converts
      → (is_nonzero (float m.alloc)
          || (is_nonzero (float m.sys) || is_nonzero (float m.total_alloc)))
        ≡ true
      → (collect_from_all_providers is_nonzero
          (record { metrics = zero_metrics float; poll_count = polls })
          (collect_runtime float none m random
            ∷ collect_gopsutil float ctx_err v percents
            ∷ [])).metrics
        ≡ measured float m random ctx_err v percents
  unfolding collect_from_all_providers merge_all collect_runtime collect_gopsutil
  first_round m random (some e) v percents polls c nz = merge-runtime m random c
  first_round m random none (err e) percents polls c nz = merge-runtime m random c
  first_round m random none (ok v) (err e) polls c nz = merge-runtime m random c
  first_round m random none (ok v) (ok percents) polls c nz =
      rw (merge-runtime m random c) (merge-system m random v percents c (not_zero m random nz))
