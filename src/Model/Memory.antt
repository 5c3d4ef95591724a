-- ===== src/Model/Memory.antt =====
-- internal/model/memory_metrics.go: what the agent measures. `F` is float64; the test `x != 0` is a
-- parameter of what needs it.
pub mod Keys
use go_musthave_metrics.Base.{ℕ, suc, ◌+◌, List, [], ◌∷◌, ◌++◌}
use go_musthave_metrics.Base.Text.{Text, codes}
use go_musthave_metrics.Base.Maps.{GoMap, insert}
use go_musthave_metrics.Base.Decimal.{decimal}

pub record MemoryMetrics (F : Type 0) : Type 0 where
  pub alloc : F
  pub buck_hash_sys : F
  pub frees : F
  pub gccpu_fraction : F
  pub gc_sys : F
  pub heap_alloc : F
  pub heap_idle : F
  pub heap_inuse : F
  pub heap_objects : F
  pub heap_released : F
  pub heap_sys : F
  pub last_gc : F
  pub lookups : F
  pub m_cache_inuse : F
  pub m_cache_sys : F
  pub m_span_inuse : F
  pub m_span_sys : F
  pub mallocs : F
  pub next_gc : F
  pub num_forced_gc : F
  pub num_gc : F
  pub other_sys : F
  pub pause_total_ns : F
  pub stack_inuse : F
  pub stack_sys : F
  pub sys : F
  pub total_alloc : F
  pub random_value : F
  pub total_memory : F
  pub free_memory : F
  pub cpu_utilization : List F

-- `fmt.Sprintf("CPUutilization%d", n)`
pub cpu_key : ℕ → Text
cpu_key n = codes "CPUutilization" ++ decimal n

module _ {F : Type 0} where
  -- The map literal of `ToMap`.
  pub float_entries : MemoryMetrics F → GoMap F
  float_entries m =
      (codes "Alloc", m.alloc)
      ∷ (codes "BuckHashSys", m.buck_hash_sys)
      ∷ (codes "Frees", m.frees)
      ∷ (codes "GCCPUFraction", m.gccpu_fraction)
      ∷ (codes "GCSys", m.gc_sys)
      ∷ (codes "HeapAlloc", m.heap_alloc)
      ∷ (codes "HeapIdle", m.heap_idle)
      ∷ (codes "HeapInuse", m.heap_inuse)
      ∷ (codes "HeapObjects", m.heap_objects)
      ∷ (codes "HeapReleased", m.heap_released)
      ∷ (codes "HeapSys", m.heap_sys)
      ∷ (codes "LastGC", m.last_gc)
      ∷ (codes "Lookups", m.lookups)
      ∷ (codes "MCacheInuse", m.m_cache_inuse)
      ∷ (codes "MCacheSys", m.m_cache_sys)
      ∷ (codes "MSpanInuse", m.m_span_inuse)
      ∷ (codes "MSpanSys", m.m_span_sys)
      ∷ (codes "Mallocs", m.mallocs)
      ∷ (codes "NextGC", m.next_gc)
      ∷ (codes "NumForcedGC", m.num_forced_gc)
      ∷ (codes "NumGC", m.num_gc)
      ∷ (codes "OtherSys", m.other_sys)
      ∷ (codes "PauseTotalNs", m.pause_total_ns)
      ∷ (codes "StackInuse", m.stack_inuse)
      ∷ (codes "StackSys", m.stack_sys)
      ∷ (codes "Sys", m.sys)
      ∷ (codes "TotalAlloc", m.total_alloc)
      ∷ (codes "RandomValue", m.random_value)
      ∷ (codes "TotalMemory", m.total_memory)
      ∷ (codes "FreeMemory", m.free_memory)
      ∷ []

  -- The loop over the processors; `i + 1` is the number of the first.
  pub add_cpus : ℕ → List F → GoMap F → GoMap F
  add_cpus i [] result = result
  add_cpus i (u ∷ us) result = add_cpus (i + 1) us (insert (cpu_key (i + 1)) u result)

  pub to_map : MemoryMetrics F → GoMap F
  unfolding float_entries add_cpus
  to_map m = add_cpus 0 m.cpu_utilization (float_entries m)
