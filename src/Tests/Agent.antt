-- ===== src/Tests/Agent.antt =====
-- The agent's parts at concrete values. A float is a number here.
use go_musthave_metrics.Base.{ℕ, ◌+◌, ◌≤◌, ◌≡◌, refl, Bool, false, not, none, [], ◌∷◌, arith, ◌==◌}
use go_musthave_metrics.Base.Text.{codes, str_eq, has_prefix}
use go_musthave_metrics.Base.Ints.{pos}
use go_musthave_metrics.Base.Results.{ok}
use go_musthave_metrics.Model.Memory.{MemoryMetrics}
use go_musthave_metrics.Agent.Collector.{collect_from_all_providers}
use go_musthave_metrics.Agent.Reporter
use go_musthave_metrics.Agent.Reporter.{Reporting, polls}
use go_musthave_metrics.Agent.Reporter.Polls.{unreset, no_poll_counted_twice}
use go_musthave_metrics.Storage.Mem.Batch.{sum}
use go_musthave_metrics.Agent.Pool.{WorkerPool, start, Reach, submit_sends, here, next}
use go_musthave_metrics.Agent.Pool.Tasks.{IsBalanced, start-IsBalanced}
use go_musthave_metrics.Config.{AgentFlags}
use go_musthave_metrics.Agent.App.{App, pooled, new_metrics_sender, initialize}
use go_musthave_metrics.Agent.App.Senders.{agent_reports_can_run}
use go_musthave_metrics.Agent.Providers.{MemStats, zero_metrics, collect_runtime, collect_gopsutil}
use go_musthave_metrics.Agent.Providers.Rounds
use go_musthave_metrics.Agent.Providers.Rounds.{Converts, first_round}
use go_musthave_metrics.Agent.Client.{new_request_processor, normalize_url}

abbrev measured : MemoryMetrics ℕ
measured = record {
  alloc = 1;
  buck_hash_sys = 2;
  frees = 0;
  gccpu_fraction = 0;
  gc_sys = 0;
  heap_alloc = 0;
  heap_idle = 0;
  heap_inuse = 0;
  heap_objects = 0;
  heap_released = 0;
  heap_sys = 0;
  last_gc = 0;
  lookups = 0;
  m_cache_inuse = 0;
  m_cache_sys = 0;
  m_span_inuse = 0;
  m_span_sys = 0;
  mallocs = 0;
  next_gc = 0;
  num_forced_gc = 0;
  num_gc = 0;
  other_sys = 0;
  pause_total_ns = 0;
  stack_inuse = 0;
  stack_sys = 0;
  sys = 3;
  total_alloc = 4;
  random_value = 5;
  total_memory = 6;
  free_memory = 7;
  cpu_utilization = 8 ∷ 9 ∷ [];
}

abbrev is_nonzero : ℕ → Bool
is_nonzero n = not (n == 0)

abbrev later : MemoryMetrics ℕ
later = record measured { alloc = 0; buck_hash_sys = 5; cpu_utilization = [] }

abbrev queued : WorkerPool
queued = record {
  tasks = 7 ∷ [];
  queue_size = 4;
  cancelled = false;
  closed = false;
  waiting = 2;
  active_workers = 0;
  dropped_tasks = 0;
  processed_tasks = 0;
  submitted = 1;
  panicked = false;
}

start-IsBalanced_example : IsBalanced 2 4 queued
unfolding start
start-IsBalanced_example =
    start-IsBalanced 2 4 queued (next here (submit_sends 7 refl (omega arith)))

abbrev idle_reporter : Reporting ℕ
idle_reporter = record {
  collector = record { metrics = measured; poll_count = 0 };
  rounds = 0;
  held = none;
  sent = false;
  counts = [];
}

abbrev polled_once : Reporting ℕ
polled_once = record {
  collector = record { metrics = measured; poll_count = 1 };
  rounds = 1;
  held = none;
  sent = false;
  counts = [];
}

no_poll_counted_twice_example :
    (sum polled_once.counts ≤ polled_once.rounds)
    × (sum polled_once.counts + polled_once.collector.poll_count
        ≤ polled_once.rounds + unreset polled_once)
unfolding collect_from_all_providers
no_poll_counted_twice_example =
    no_poll_counted_twice is_nonzero {r = idle_reporter} {s = polled_once} refl refl refl refl
      (Reporter.next Reporter.here (polls []))

abbrev pub agent_flags : AgentFlags
agent_flags = record {
  server_addr = codes ":8080";
  report_interval = pos 10;
  polling_interval = pos 2;
  log_level = [];
  secret_key = [];
  rate_limit = pos 2;
  max_retries = pos 3;
  retry_delays = [];
}

abbrev pub agent_app : App
agent_app = record {
  base_url = codes "http://localhost:8080";
  request_processor = new_request_processor none;
  polling_interval = 2_000_000_000;
  report_interval = 10_000_000_000;
  sender = pooled (start 2 4);
}

agent_reports_can_run_example :
    (q : WorkerPool) × Reach queued q
    × (q.tasks ≡ [])
    × (q.active_workers ≡ 0)
    × (q.submitted ≡ 1)
    × (q.dropped_tasks ≡ 0)
    × (q.submitted ≡ q.processed_tasks + q.dropped_tasks)
unfolding initialize new_metrics_sender normalize_url has_prefix start str_eq
agent_reports_can_run_example =
    agent_reports_can_run agent_flags agent_app (start 2 4) queued refl refl
      (next here (submit_sends 7 refl (omega arith))) refl

abbrev stats : MemStats ℕ
stats = record {
  alloc = 1;
  buck_hash_sys = 2;
  frees = 0;
  gccpu_fraction = 0;
  gc_sys = 0;
  heap_alloc = 0;
  heap_idle = 0;
  heap_inuse = 0;
  heap_objects = 0;
  heap_released = 0;
  heap_sys = 0;
  last_gc = 0;
  lookups = 0;
  m_cache_inuse = 0;
  m_cache_sys = 0;
  m_span_inuse = 0;
  m_span_sys = 0;
  mallocs = 0;
  next_gc = 0;
  num_forced_gc = 0;
  num_gc = 0;
  other_sys = 0;
  pause_total_ns = 0;
  stack_inuse = 0;
  stack_sys = 0;
  sys = 3;
  total_alloc = 4;
}

abbrev same_number : ℕ → ℕ
same_number n = n

nonzero_converts : Converts same_number is_nonzero
nonzero_converts = record { zero_float = refl; only_zero = λ n e. ground arith }

first_round_example :
    (collect_from_all_providers is_nonzero
      (record { metrics = zero_metrics same_number; poll_count = 0 })
      (collect_runtime same_number none stats 5
        ∷ collect_gopsutil same_number none (ok (record { total = 6; free = 7 })) (ok (8 ∷ 9 ∷ []))
        ∷ [])).metrics
    ≡ Rounds.measured same_number stats 5 none
        (ok (record { total = 6; free = 7 }))
        (ok (8 ∷ 9 ∷ []))
first_round_example =
    first_round same_number is_nonzero stats 5 none (ok (record { total = 6; free = 7 }))
      (ok (8 ∷ 9 ∷ [])) 0 nonzero_converts refl
