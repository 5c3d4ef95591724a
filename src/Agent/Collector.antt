-- ===== src/Agent/Collector.antt =====
-- internal/agent/collector/metrics_collector.go. `is_nonzero x` is the test `x != 0` on float64.
pub mod Rounds
use go_musthave_metrics.Base.{ℕ, ◌+◌, Bool, true, false, ◌&&◌, not, List, [], ◌∷◌, if◌then◌else◌}
use go_musthave_metrics.Base.Results.{Result, ok, err}
use go_musthave_metrics.Model.Memory.{MemoryMetrics}

pub record Collector (F : Type 0) : Type 0 where
  pub metrics : MemoryMetrics F
  pub poll_count : ℕ

module _ {F : Type 0} (is_nonzero : F → Bool) where
  -- `MemoryMetrics.IsZero`
  unfoldable pub is_zero : MemoryMetrics F → Bool
  is_zero m = not (is_nonzero m.alloc) && not (is_nonzero m.sys) && not (is_nonzero m.total_alloc)

  -- `if new != 0 { old = new }`
  abbrev pick : F → F → F
  pick new old = if is_nonzero new then new else old

  -- `if len(new) > 0 { old = new }`
  abbrev pub pick_list : List F → List F → List F
  pick_list [] old = old
  pick_list (x ∷ xs) old = x ∷ xs

  unfoldable pub merge_metrics : MemoryMetrics F → MemoryMetrics F → MemoryMetrics F
  merge_metrics old new = if is_zero old then new else record {
    alloc = pick new.alloc old.alloc;
    buck_hash_sys = pick new.buck_hash_sys old.buck_hash_sys;
    frees = pick new.frees old.frees;
    gccpu_fraction = pick new.gccpu_fraction old.gccpu_fraction;
    gc_sys = pick new.gc_sys old.gc_sys;
    heap_alloc = pick new.heap_alloc old.heap_alloc;
    heap_idle = pick new.heap_idle old.heap_idle;
    heap_inuse = pick new.heap_inuse old.heap_inuse;
    heap_objects = pick new.heap_objects old.heap_objects;
    heap_released = pick new.heap_released old.heap_released;
    heap_sys = pick new.heap_sys old.heap_sys;
    last_gc = pick new.last_gc old.last_gc;
    lookups = pick new.lookups old.lookups;
    m_cache_inuse = pick new.m_cache_inuse old.m_cache_inuse;
    m_cache_sys = pick new.m_cache_sys old.m_cache_sys;
    m_span_inuse = pick new.m_span_inuse old.m_span_inuse;
    m_span_sys = pick new.m_span_sys old.m_span_sys;
    mallocs = pick new.mallocs old.mallocs;
    next_gc = pick new.next_gc old.next_gc;
    num_forced_gc = pick new.num_forced_gc old.num_forced_gc;
    num_gc = pick new.num_gc old.num_gc;
    other_sys = pick new.other_sys old.other_sys;
    pause_total_ns = pick new.pause_total_ns old.pause_total_ns;
    stack_inuse = pick new.stack_inuse old.stack_inuse;
    stack_sys = pick new.stack_sys old.stack_sys;
    sys = pick new.sys old.sys;
    total_alloc = pick new.total_alloc old.total_alloc;
    random_value = pick new.random_value old.random_value;
    total_memory = pick new.total_memory old.total_memory;
    free_memory = pick new.free_memory old.free_memory;
    cpu_utilization = pick_list new.cpu_utilization old.cpu_utilization;
  }

  -- The loop over what the providers returned: an error is logged and skipped.
  unfoldable pub merge_all : MemoryMetrics F → List (Result (MemoryMetrics F)) → MemoryMetrics F
  unfolding merge_metrics
  merge_all m [] = m
  merge_all m (err e ∷ rs) = merge_all m rs
  merge_all m (ok new ∷ rs) = merge_all (merge_metrics m new) rs

  -- One tick; `poll_count` is an int and grows by one also when every provider failed.
  unfoldable pub collect_from_all_providers :
      Collector F → List (Result (MemoryMetrics F)) → Collector F
  unfolding merge_all
  collect_from_all_providers c rs = record {
    metrics = merge_all c.metrics rs;
    poll_count = c.poll_count + 1;
  }

  -- `GetMetrics` returns a deep copy and the count; `ResetCount` sets the count to 0.
  unfoldable pub get_metrics : Collector F → MemoryMetrics F × ℕ
  get_metrics c = (c.metrics, c.poll_count)

  unfoldable pub reset_count : Collector F → Collector F
  reset_count c = record c { poll_count = 0 }
