-- ===== src/Retry/Counted.antt =====
-- What `Do` does to a claim that each call of the operation may weaken.
use go_musthave_metrics.Base.{
  ℕ, zero, suc, ◌+◌, ◌≤◌, ◌<◌, ◌≡◌, refl, Bool, not, if_both, Option, none, some, List, arith,
  get_elem?,
}
use go_musthave_metrics.Retry.{
  Duration, RetryConfig, total_attempts, delays_or_default, is_retryable, after_wait, pause,
  after_call, attempt, retry_do,
}
use go_musthave_metrics.Retry.Attempts.{Outcome}

weaken :
    {E S : Type 0} {P P' Q Q' : S → Type 0}
    → ((s : S) → P s → P' s)
    → ((s : S) → Q s → Q' s)
    → (r : Option E × S) → Outcome P Q r
    → Outcome P' Q' r
weaken p q (none, s) o = q s o
weaken p q (some e, s) o = p s o

module _ {E S : Type 0} (ctx_err : S → Option E) (op : S → Option E × S)
    (wait : S → Duration → Option E × S) where
  -- After `k` calls `P k` holds, if all of them failed, and `Q k` if the last one returned nil.
  pub record CountedRule (P Q : ℕ → S → Type 0) : Type 0 where
    pub calls : (k : ℕ) (s : S) → P k s → Outcome (P (k + 1)) (Q (k + 1)) (op s)
    pub waits : (k : ℕ) (s : S) (d : Duration) → P k s → P k (wait s d).1
    pub grows : (k l : ℕ) (s : S) → k ≤ l → P k s → P l s
    pub grows_done : (k l : ℕ) (s : S) → k ≤ l → Q k s → Q l s

  -- `P1` holds after a failed call, `P` and `Q` in the end.
  module _ (P1 P Q : S → Type 0) (waits : (s : S) (d : Duration) → P1 s → P1 (wait s d).1)
      (last : (s : S) → P1 s → P s) where
    after_wait_counted :
        (next : E → S → Option E × S) (e : E) (r : Option E × S)
        → ((e' : E) (s : S) → P1 s → Outcome P Q (next e' s))
        → P1 r.1
        → Outcome P Q (after_wait ctx_err op wait next e r)
    unfolding after_wait
    after_wait_counted next e (none, s) go p = go e s p
    after_wait_counted next e (some x, s) go p = last s p

    pause_counted :
        (delay : Option Duration) (next : E → S → Option E × S) (e : E) (s : S)
        → ((e' : E) (s' : S) → P1 s' → Outcome P Q (next e' s'))
        → P1 s
        → Outcome P Q (pause ctx_err op wait delay next e s)
    unfolding pause
    pause_counted none next e s go p = go e s p
    pause_counted (some d) next e s go p = after_wait_counted next e (wait s d) go (waits s d p)

    after_call_counted :
        (retryable : E → Bool) (delay : Option Duration) (next : E → S → Option E × S)
        (r : Option E × S)
        → ((e : E) (s : S) → P1 s → Outcome P Q (next e s))
        → Outcome P1 Q r
        → Outcome P Q (after_call ctx_err op wait retryable delay next r)
    unfolding after_call
    after_call_counted retryable delay next (none, s) go o = o
    after_call_counted retryable delay next (some e, s) go o =
        if_both (Outcome P Q) (not (retryable e)) (last s o) (pause_counted delay next e s go o)

  module _ (P Q : ℕ → S → Type 0) (h : CountedRule P Q) where
    attempt_counted :
        (delays : List Duration) (retryable : E → Bool) (left i : ℕ) (last : Option E) (s : S)
        (k : ℕ)
        → P k s
        → (last ≡ none → 0 < left)
        → Outcome
            (P (k + left))
            (Q (k + left))
            (attempt ctx_err op wait delays retryable left i last s)
    unfolding attempt
    attempt_counted delays retryable zero i none s k p r = absurd (omega (arith, r refl))
    attempt_counted delays retryable zero i (some e) s k p r = h.grows k (k + 0) s (omega arith) p
    attempt_counted delays retryable (suc left) i last s k p r =
        after_call_counted (P (k + 1)) (P (k + suc left)) (Q (k + suc left)) (h.waits (k + 1))
          (λ s1 p1. h.grows (k + 1) (k + suc left) s1 (omega arith) p1) retryable
          (get_elem? delays i) (λ e. attempt ctx_err op wait delays retryable left (i + 1) (some e))
          (op s)
          (λ e s1 p1.
            weaken (λ s2 q. h.grows (k + 1 + left) (k + suc left) s2 (omega arith) q)
              (λ s2 q. h.grows_done (k + 1 + left) (k + suc left) s2 (omega arith) q)
              (attempt ctx_err op wait delays retryable left (i + 1) (some e) s1)
              (attempt_counted delays retryable left (i + 1) (some e) s1 (k + 1) p1
                (λ x. absurd (cc))))
          (weaken (λ s1 q. q) (λ s1 q. h.grows_done (k + 1) (k + suc left) s1 (omega arith) q)
            (op s) (h.calls k s p))

    pub retry_do_counted :
        (cfg : RetryConfig E) (s : S)
        → P 0 s
        → Outcome (P (total_attempts cfg)) (Q (total_attempts cfg)) (retry_do ctx_err op wait cfg s)
    unfolding retry_do total_attempts
    retry_do_counted cfg s p =
        let n = total_attempts cfg in
        weaken (λ s1 q. h.grows (0 + n) n s1 (omega arith) q)
          (λ s1 q. h.grows_done (0 + n) n s1 (omega arith) q) (retry_do ctx_err op wait cfg s)
          (attempt_counted (delays_or_default cfg) (is_retryable cfg) n 0 none s 0 p
            (λ e. omega arith))
