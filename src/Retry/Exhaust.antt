-- ===== src/Retry/Exhaust.antt =====
-- Every attempt fails: how often `Do` tries, and what it returns.
use native.Mathlib.Numerals.{add-one}
use go_musthave_metrics.Base.{
  ℕ, zero, suc, ◌+◌, ◌≡◌, ◌≢◌, Bool, true, Option, none, some, List, arith, get_elem?, Option-cases,
  inl, inr,
}
use go_musthave_metrics.Base.Ints.{ℤ, pos, negsuc}
use go_musthave_metrics.Retry.{
  Duration, RetryConfig, clamp_retries, total_attempts, delays_or_default, is_retryable, after_wait,
  pause, after_call, attempt, retry_do,
}
use go_musthave_metrics.Retry.Attempts.{Counts}

module _ {E S : Type 0} (ctx_err : S → Option E) (op : S → Option E × S)
    (wait : S → Duration → Option E × S) where
  -- Each call fails with an error that may be retried, and the context never ends.
  pub record KeepsFailing (retryable : E → Bool) : Type 0 where
    pub error : S → E
    pub fails : (s : S) → (op s).0 ≡ some (error s)
    pub again : (s : S) → retryable (error s) ≡ true
    pub lasts : (s : S) (d : Duration) → (wait s d).0 ≡ none

  module _ (count : S → ℕ) (c : Counts ctx_err op wait count) (delays : List Duration)
      (retryable : E → Bool) (f : KeepsFailing retryable) where
    -- One more attempt is made, from a state with one more call.
    attempt-next :
        (left i : ℕ) (last : Option E) (s : S)
        → (s2 : S) × (count s2 ≡ count s + 1)
          × (attempt ctx_err op wait delays retryable (suc left) i last s
              ≡ attempt ctx_err op wait delays retryable left (i + 1) (some (f.error s)) s2)
    unfolding attempt after_call pause after_wait
    attempt-next left i last s = elim (Option-cases (get_elem? delays i)) [
      | inl e ↦ ((op s).1, c.called s, ground (arith, f.fails s, f.again s))
      | inr (d, e) ↦ (
        (wait (op s).1 d).1,
        omega (arith, c.called s, c.waited (op s).1 d),
        ground (arith, f.fails s, f.again s, f.lasts (op s).1 d),
      )
    ]

    attempt_exhausts :
        (left i : ℕ) (e : E) (s : S)
        → (count (attempt ctx_err op wait delays retryable left i (some e) s).1 ≡ count s + left)
          × ((attempt ctx_err op wait delays retryable left i (some e) s).0 ≢ none)
    unfolding attempt
    attempt_exhausts zero i e s = (omega arith, λ h. cc)
    attempt_exhausts (suc left) i e s =
        let (s2, k, step) = attempt-next left i (some e) s in
        let (n, h) = attempt_exhausts left (i + 1) (f.error s) s2 in
        (rw step (omega arith), rw step h)

  -- One call for each retry, and one more; a negative number of retries counts as 0.
  abbrev pub one_more : ℤ → ℕ
  one_more (pos n) = n + 1
  one_more (negsuc n) = 1

  total_attempts-one_more : (cfg : RetryConfig E) → total_attempts cfg ≡ one_more cfg.max_retries
  unfolding total_attempts clamp_retries
  total_attempts-one_more cfg = ground arith

  -- When every call fails with a retryable error and the context lasts, `Do` makes all its
  -- attempts, one more than the retries (one if these are negative), and returns an error; `count` is a count of the calls.
  pub retry_do_exhausts :
      (count : S → ℕ)
      → Counts ctx_err op wait count
      → (cfg : RetryConfig E) → KeepsFailing (is_retryable cfg)
      → (s : S)
      → (count (retry_do ctx_err op wait cfg s).1 ≡ count s + one_more cfg.max_retries)
        × ((retry_do ctx_err op wait cfg s).0 ≢ none)
  unfolding retry_do total_attempts
  retry_do_exhausts count c cfg f s =
      let n = clamp_retries cfg in
      let (s2, k, step) =
        attempt-next count c (delays_or_default cfg) (is_retryable cfg) f n 0 none s in
      let (m, h) =
        attempt_exhausts count c (delays_or_default cfg) (is_retryable cfg) f n (0 + 1) (f.error s)
          s2 in
      rw (← total_attempts-one_more cfg, add-one) (rw step (omega arith, h))
