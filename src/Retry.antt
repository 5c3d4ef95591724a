-- ===== src/Retry.antt =====
-- internal/retry/retry.go. The operation and the wait are steps of an environment `S`: `wait s d`
-- is the select between `time.After(d)` (`none`) and `ctx.Done()` (the context's error).
pub mod Attempts
pub mod Exhaust
pub mod Counted
use go_musthave_metrics.Base.{
  ℕ, zero, suc, ◌+◌, ◌*◌, Bool, false, not, Option, none, some, List, [], ◌∷◌, get_elem?,
  if◌then◌else◌,
}
use go_musthave_metrics.Base.Ints.{ℤ, pos, is_negative, to_count}

-- A time.Duration, in nanoseconds.
abbrev pub Duration : Type 0
Duration = ℕ

abbrev second : Duration
second = 1_000_000_000

pub record RetryConfig (E : Type 0) : Type 0 where
  pub max_retries : ℤ
  pub delays : Option (List Duration)
  pub is_retryable_fn : Option (E → Bool)

module _ {E : Type 0} where
  pub clamp_retries : RetryConfig E → ℕ
  clamp_retries cfg = if is_negative cfg.max_retries then 0 else to_count cfg.max_retries

  pub total_attempts : RetryConfig E → ℕ
  unfolding clamp_retries
  total_attempts cfg = clamp_retries cfg + 1

  pub delays_or_default : RetryConfig E → List Duration
  delays_or_default cfg = elim cfg.delays [
    | some ds ↦ ds
    | none ↦ (1 * second) ∷ (3 * second) ∷ (5 * second) ∷ []
  ]

  unfoldable pub is_retryable : RetryConfig E → E → Bool
  is_retryable cfg e = elim cfg.is_retryable_fn [ some f ↦ f e | none ↦ false ]

module _ {E S : Type 0} (ctx_err : S → Option E) (op : S → Option E × S)
    (wait : S → Duration → Option E × S) where
  -- The select after a failed attempt: the next attempt, unless the context ended.
  after_wait : (E → S → Option E × S) → E → Option E × S → Option E × S
  after_wait next e (none, s) = next e s
  after_wait next e (some ctx_error, s) = (some ctx_error, s)

  -- `if i < len(cfg.Delays)`
  pause : Option Duration → (E → S → Option E × S) → E → S → Option E × S
  unfolding after_wait
  pause none next e s = next e s
  pause (some d) next e s = after_wait next e (wait s d)

  after_call : (E → Bool) → Option Duration → (E → S → Option E × S) → Option E × S → Option E × S
  unfolding pause
  after_call retryable delay next (none, s) = (none, s)
  after_call retryable delay next (some e, s) =
      if not (retryable e) then (some e, s) else pause delay next e s

  -- `left` attempts are to come, and the next has index `i`.
  pub attempt : List Duration → (E → Bool) → ℕ → ℕ → Option E → S → Option E × S
  unfolding after_call
  attempt delays retryable zero i (some e) s = (some e, s)
  attempt delays retryable zero i none s = (ctx_err s, s)
  attempt delays retryable (suc left) i last s =
      after_call retryable (get_elem? delays i)
        (λ e. attempt delays retryable left (i + 1) (some e)) (op s)

  unfoldable pub retry_do : RetryConfig E → S → Option E × S
  unfolding attempt total_attempts delays_or_default is_retryable
  retry_do cfg = attempt (delays_or_default cfg) (is_retryable cfg) (total_attempts cfg) 0 none
