-- ===== src/Agent/Providers.antt =====
-- internal/agent/provider: the two providers of measurements. Package runtime and gopsutil are
-- parameters; `float` is the conversion float64 of an unsigned integer.
pub mod Rounds
use go_musthave_metrics.Base.{ℕ, Option, none, some, List, []}
use go_musthave_metrics.Base.Results.{Error, Result, ok, err}
use go_musthave_metrics.Model.Memory.{MemoryMetrics}

-- The fields of runtime.MemStats that are read.
pub record MemStats (F : Type 0) : Type 0 where
  pub alloc : ℕ
  pub buck_hash_sys : ℕ
  pub frees : ℕ
  pub gccpu_fraction : F
  pub gc_sys : ℕ
  pub heap_alloc : ℕ
  pub heap_idle : ℕ
  pub heap_inuse : ℕ
  pub heap_objects : ℕ
  pub heap_released : ℕ
  pub heap_sys : ℕ
  pub last_gc : ℕ
  pub lookups : ℕ
  pub m_cache_inuse : ℕ
  pub m_cache_sys : ℕ
  pub m_span_inuse : ℕ
  pub m_span_sys : ℕ
  pub mallocs : ℕ
  pub next_gc : ℕ
  pub num_forced_gc : ℕ
  pub num_gc : ℕ
  pub other_sys : ℕ
  pub pause_total_ns : ℕ
  pub stack_inuse : ℕ
  pub stack_sys : ℕ
  pub sys : ℕ
  pub total_alloc : ℕ

-- The `Total` and the `Free` of gopsutil's memory.
pub record VirtualMemory : Type 0 where
  pub total : ℕ
  pub free : ℕ

module _ {F : Type 0} (float : ℕ → F) where
  -- `model.MemoryMetrics{}`
  abbrev pub zero_metrics : MemoryMetrics F
  zero_metrics = record {
    alloc = float 0;
    buck_hash_sys = float 0;
    frees = float 0;
    gccpu_fraction = float 0;
    gc_sys = float 0;
    heap_alloc = float 0;
    heap_idle = float 0;
    heap_inuse = float 0;
    heap_objects = float 0;
    heap_released = float 0;
    heap_sys = float 0;
    last_gc = float 0;
    lookups = float 0;
    m_cache_inuse = float 0;
    m_cache_sys = float 0;
    m_span_inuse = float 0;
    m_span_sys = float 0;
    mallocs = float 0;
    next_gc = float 0;
    num_forced_gc = float 0;
    num_gc = float 0;
    other_sys = float 0;
    pause_total_ns = float 0;
    stack_inuse = float 0;
    stack_sys = float 0;
    sys = float 0;
    total_alloc = float 0;
    random_value = float 0;
    total_memory = float 0;
    free_memory = float 0;
    cpu_utilization = [];
  }

  abbrev pub runtime_metrics : MemStats F → F → MemoryMetrics F
  runtime_metrics m random = record {
    alloc = float m.alloc;
    buck_hash_sys = float m.buck_hash_sys;
    frees = float m.frees;
    gccpu_fraction = m.gccpu_fraction;
    gc_sys = float m.gc_sys;
    heap_alloc = float m.heap_alloc;
    heap_idle = float m.heap_idle;
    heap_inuse = float m.heap_inuse;
    heap_objects = float m.heap_objects;
    heap_released = float m.heap_released;
    heap_sys = float m.heap_sys;
    last_gc = float m.last_gc;
    lookups = float m.lookups;
    m_cache_inuse = float m.m_cache_inuse;
    m_cache_sys = float m.m_cache_sys;
    m_span_inuse = float m.m_span_inuse;
    m_span_sys = float m.m_span_sys;
    mallocs = float m.mallocs;
    next_gc = float m.next_gc;
    num_forced_gc = float m.num_forced_gc;
    num_gc = float m.num_gc;
    other_sys = float m.other_sys;
    pause_total_ns = float m.pause_total_ns;
    stack_inuse = float m.stack_inuse;
    stack_sys = float m.stack_sys;
    sys = float m.sys;
    total_alloc = float m.total_alloc;
    random_value = random;
    total_memory = float 0;
    free_memory = float 0;
    cpu_utilization = [];
  }

  -- `Collect` of runtime_provider.go; `random` is `rand.Float64()`.
  unfoldable pub collect_runtime : Option Error → MemStats F → F → Result (MemoryMetrics F)
  collect_runtime ctx_err m random = elim ctx_err [
    | some e ↦ err e
    | none ↦ ok (runtime_metrics m random)
  ]

  -- `Collect` of gopsutil_provider.go.
  unfoldable pub collect_gopsutil :
      Option Error → Result VirtualMemory → Result (List F) → Result (MemoryMetrics F)
  collect_gopsutil ctx_err virtual_memory cpu_percent = elim ctx_err [
    | some e ↦ err e
    | none ↦ elim virtual_memory [
      | err e ↦ err e
      | ok mem_info ↦ elim cpu_percent [
        | err e ↦ err e
        | ok percents ↦ ok (record zero_metrics {
          total_memory = float mem_info.total;
          free_memory = float mem_info.free;
          cpu_utilization = percents;
        })
      ]
    ]
  ]
