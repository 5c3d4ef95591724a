-- ===== src/Handler/Limits.antt =====
-- internal/handler/middlewares/limiter.go and track_active_requests.go: many requests at once.
pub mod Concurrency
use go_musthave_metrics.Base.{
  ℕ, suc, ◌+◌, ◌-◌, ◌<◌, ◌≡◌, ◌⊎◌, Bool, true, false, not, if◌then◌else◌, Option, none, some, ltb,
}
use go_musthave_metrics.Base.Ints.{ℤ, is_negative, is_positive, to_count}

-- The limiter: `semaphore` tokens are in the channel, and `serving` requests are in the next handler.
pub record Limiter : Type 0 where
  pub semaphore : ℕ
  pub serving : ℕ

-- What `RateLimiter` sets up; `none` is the panic of `make` on a negative size.
unfoldable pub rate_limiter : ℤ → Option Limiter
rate_limiter max_concurrent =
    if is_negative max_concurrent then none else some (record { semaphore = 0; serving = 0 })

pub data Admission : Type 0 where
  bypassed admitted refused : Admission

-- The select of one request; `maxConcurrent` is the capacity of the channel.
unfoldable pub admit : ℤ → Limiter → Admission × Limiter
admit max_concurrent l =
    if not (is_positive max_concurrent)
    then (bypassed, record l { serving = l.serving + 1 })
    else if ltb l.semaphore (to_count max_concurrent)
    then (admitted, record { semaphore = l.semaphore + 1; serving = l.serving + 1 })
    else (refused, l)

-- The end of a request that was let through, with the deferred receive of an admitted one.
pub leave : ℤ → Limiter → Limiter
leave max_concurrent l =
    if not (is_positive max_concurrent)
    then record l { serving = l.serving - 1 }
    else record { semaphore = l.semaphore - 1; serving = l.serving - 1 }

pub data LimiterStep (max_concurrent : ℤ) (l : Limiter) : Limiter → Type 0 where
  arrives : LimiterStep max_concurrent l (admit max_concurrent l).1
  leaves : 0 < l.serving → LimiterStep max_concurrent l (leave max_concurrent l)

pub data LimiterReach (max_concurrent : ℤ) (l : Limiter) : Limiter → Type 0 where
  here : LimiterReach max_concurrent l l
  next :
      {u v : Limiter}
      → LimiterReach max_concurrent l u
      → LimiterStep max_concurrent u v
      → LimiterReach max_concurrent l v

-- The tracker: `entering` requests have passed the select and not yet called `Add`.
pub record Tracker : Type 0 where
  pub shutting_down : Bool
  pub entering : ℕ
  pub serving : ℕ
  -- the counter of the WaitGroup
  pub active_requests : ℕ

-- `checks` is the select: with the channel closed it answers 503, which changes nothing here.
pub data TrackerStep (t : Tracker) : Tracker → Type 0 where
  checks : TrackerStep t (if t.shutting_down then t else record t { entering = t.entering + 1 })
  adds :
      0 < t.entering
      → TrackerStep t (record t {
        entering = t.entering - 1;
        active_requests = t.active_requests + 1;
        serving = t.serving + 1;
      })
  finishes :
      0 < t.serving
      → TrackerStep t
          (record t { serving = t.serving - 1; active_requests = t.active_requests - 1 })
  shuts_down : TrackerStep t (record t { shutting_down = true })

pub data TrackerReach (t : Tracker) : Tracker → Type 0 where
  stays : TrackerReach t t
  then_step : {u v : Tracker} → TrackerReach t u → TrackerStep u v → TrackerReach t v
