-- ===== src/Retry/Attempts.antt =====
-- How often `Do` calls its operation, and what its result says about the calls.
use native.Mathlib.Numerals.{add-one}
use go_musthave_metrics.Base.{
  ℕ, zero, suc, ◌+◌, ◌≤◌, ◌<◌, ◌≡◌, refl, Bool, false, not, if_both, Option, none, some, List,
  arith, get_elem?,
}
use go_musthave_metrics.Retry.{
  Duration, RetryConfig, total_attempts, delays_or_default, is_retryable, after_wait, pause,
  after_call, attempt, retry_do,
}

-- What holds after an error, `P`, and what holds after nil, `Q`.
abbrev pub Outcome : {E S : Type 0} → (S → Type 0) → (S → Type 0) → Option E × S → Type 0
Outcome P Q (none, s) = Q s
Outcome P Q (some e, s) = P s

module _ {E S : Type 0} (ctx_err : S → Option E) (op : S → Option E × S)
    (wait : S → Duration → Option E × S) where
  -- `count` counts the calls of `op`.
  pub record Counts (count : S → ℕ) : Type 0 where
    pub called : (s : S) → count (op s).1 ≡ count s + 1
    pub waited : (s : S) (d : Duration) → count (wait s d).1 ≡ count s

  attempt-le :
      (count : S → ℕ)
      → Counts count
      → (delays : List Duration) (retryable : E → Bool) (left i : ℕ) (last : Option E) (s : S)
      → count (attempt ctx_err op wait delays retryable left i last s).1 ≤ count s + left
  unfolding attempt
  attempt-le count h delays retryable zero i none s = omega arith
  attempt-le count h delays retryable zero i (some e) s = omega arith
  attempt-le count h delays retryable (suc left) i last s =
      let s1 = (op s).1 in
      grind (
        arith,
        h.called s,
        h.waited,
        λ (e : E). attempt-le count h delays retryable left (i + 1) (some e) s1,
        λ (e : E) (d : Duration).
            attempt-le count h delays retryable left (i + 1) (some e) (wait s1 d).1,
      )

  -- For a count that grows by one with each call of the operation and stays over a wait, `Do`
  -- calls its operation at most once more than the retries that are configured.
  pub retry_do-count-le :
      (count : S → ℕ)
      → Counts count
      → (cfg : RetryConfig E) (s : S)
      → count (retry_do ctx_err op wait cfg s).1 ≤ count s + total_attempts cfg
  unfolding retry_do
  retry_do-count-le count h cfg s =
      attempt-le count h (delays_or_default cfg) (is_retryable cfg) (total_attempts cfg) 0 none s

  -- A first call that succeeds is the only one.
  pub retry_do-first :
      (cfg : RetryConfig E) (s t : S)
      → op s ≡ (none, t)
      → retry_do ctx_err op wait cfg s ≡ (none, t)
  unfolding retry_do total_attempts attempt after_call
  retry_do-first cfg s t e = rw add-one (ground (arith, e))

  -- A first call with an error that may not be retried is the only one.
  pub retry_do-refused :
      (cfg : RetryConfig E) (s t : S) (e : E)
      → op s ≡ (some e, t)
      → is_retryable cfg e ≡ false
      → retry_do ctx_err op wait cfg s ≡ (some e, t)
  unfolding retry_do total_attempts attempt after_call
  retry_do-refused cfg s t e called refused = rw add-one (ground (arith, called, refused))

  -- `P` survives a failed call and a wait, and a successful call turns it into `Q`.
  pub record Rule (P Q : S → Type 0) : Type 0 where
    pub calls : (s : S) → P s → Outcome P Q (op s)
    pub waits : (s : S) (d : Duration) → P s → P (wait s d).1

  module _ (P Q : S → Type 0) (h : Rule P Q) where
    after_wait_rule :
        (next : E → S → Option E × S) (e : E) (r : Option E × S)
        → ((e' : E) (s : S) → P s → Outcome P Q (next e' s))
        → P r.1
        → Outcome P Q (after_wait ctx_err op wait next e r)
    unfolding after_wait
    after_wait_rule next e (none, s) go p = go e s p
    after_wait_rule next e (some x, s) go p = p

    pause_rule :
        (delay : Option Duration) (next : E → S → Option E × S) (e : E) (s : S)
        → ((e' : E) (s' : S) → P s' → Outcome P Q (next e' s'))
        → P s
        → Outcome P Q (pause ctx_err op wait delay next e s)
    unfolding pause
    pause_rule none next e s go p = go e s p
    pause_rule (some d) next e s go p = after_wait_rule next e (wait s d) go (h.waits s d p)

    after_call_rule :
        (retryable : E → Bool) (delay : Option Duration) (next : E → S → Option E × S)
        (r : Option E × S)
        → ((e : E) (s : S) → P s → Outcome P Q (next e s))
        → Outcome P Q r
        → Outcome P Q (after_call ctx_err op wait retryable delay next r)
    unfolding after_call
    after_call_rule retryable delay next (none, s) go o = o
    after_call_rule retryable delay next (some e, s) go o =
        if_both (Outcome P Q) (not (retryable e)) o (pause_rule delay next e s go o)

    attempt_rule :
        (delays : List Duration) (retryable : E → Bool) (left i : ℕ) (last : Option E) (s : S)
        → P s
        → (last ≡ none → 0 < left)
        → Outcome P Q (attempt ctx_err op wait delays retryable left i last s)
    unfolding attempt
    attempt_rule delays retryable zero i none s p r = absurd (omega (arith, r refl))
    attempt_rule delays retryable zero i (some e) s p r = p
    attempt_rule delays retryable (suc left) i last s p r =
        after_call_rule retryable (get_elem? delays i)
          (λ e. attempt ctx_err op wait delays retryable left (i + 1) (some e)) (op s)
          (λ e s1 p1. attempt_rule delays retryable left (i + 1) (some e) s1 p1 (λ x. absurd (cc)))
          (h.calls s p)

    -- From a state with `P`, `Do` ends with `Q` if it returns nil and with `P` if it returns an
    -- error, when a call of the operation does so and a wait keeps `P`.
    pub retry_do_rule :
        (cfg : RetryConfig E) (s : S) → P s → Outcome P Q (retry_do ctx_err op wait cfg s)
    unfolding retry_do total_attempts
    retry_do_rule cfg s p =
        attempt_rule (delays_or_default cfg) (is_retryable cfg) (total_attempts cfg) 0 none s p
          (λ e. omega arith)
