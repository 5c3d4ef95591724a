-- ===== src/Storage/Db/Uncertain.antt =====
-- A batch against a server whose commits may report an error and have happened all the same, as
-- PostgreSQL documents of a connection that is lost during COMMIT.
use go_musthave_metrics.Base.{
  ℕ, zero, suc, ◌+◌, ◌≤◌, ◌≡◌, ap, ◌∙◌, ◌⊎◌, inl, inr, some, List, Option-cases, arith,
}
use go_musthave_metrics.Retry.{RetryConfig, total_attempts}
use go_musthave_metrics.Retry.Attempts.{Outcome}
use go_musthave_metrics.Retry.Counted.{retry_do_counted}
use go_musthave_metrics.Model.{Metrics}
use go_musthave_metrics.Storage.Db.{DbError, Pgx, attempt_batch, update_metrics}
use go_musthave_metrics.Storage.Db.Atomic.{Transactions, apply_all, statements, attempt_batch_rule}

abbrev pub times {ℓ} : {T : Type ℓ} → ℕ → (T → T) → T → T
times zero f t = t
times (suc n) f t = f (times n f t)

pub record UncertainCommits {F : Type 0} {p : Pgx F} (l : Transactions p) : Type 0 where
  pub commit_unknown :
      (t : p.Tx) (w : p.World) (e : DbError)
      → (p.commit t w).0 ≡ some e
      → (l.table (p.commit t w).1 ≡ l.table w)
        ⊎ (l.table (p.commit t w).1 ≡ apply_all l.apply (l.pending t w) (l.table w))

module _ {F : Type 0} (p : Pgx F) (cfg : RetryConfig DbError) (l : Transactions p)
    (uncertain : UncertainCommits l) (t0 : l.Table) (xs : List (Metrics F)) where
  abbrev pub whole_batch : l.Table → l.Table
  whole_batch = apply_all l.apply (statements p cfg xs)

  -- The whole batch was applied at least `least` and at most `most` times, and nothing else.
  abbrev pub Applied : ℕ → ℕ → p.World → Type 0
  Applied least most w = (n : ℕ) × (least ≤ n) × (n ≤ most) × (l.table w ≡ times n whole_batch t0)

  committed :
      (n k : ℕ) (tx : p.Tx) (w : p.World)
      → n ≤ k
      → l.table w ≡ times n whole_batch t0
      → l.pending tx w ≡ statements p cfg xs
      → Outcome
          (Applied 0 (k + 1))
          (Applied 1 (k + 1))
          ((p.commit tx w).0, p.rollback tx (p.commit tx w).1)
  committed n k tx w few same pend =
      let after = l.rollback_keeps tx (p.commit tx w).1 in
      elim (Option-cases (p.commit tx w).0) [
        | inl ok ↦ rw ok (
          suc n,
          omega arith,
          omega arith,
          after
              ∙ l.commit_applies tx w ok
              ∙ ap (λ ss. apply_all l.apply ss (l.table w)) pend
              ∙ ap whole_batch same,
        )
        | inr (e, bad) ↦ elim (uncertain.commit_unknown tx w e bad) [
          | inl lost ↦ rw bad (n, omega arith, omega arith, after ∙ lost ∙ same)
          | inr done ↦ rw bad (
            suc n,
            omega arith,
            omega arith,
            after ∙ done ∙ ap (λ ss. apply_all l.apply ss (l.table w)) pend ∙ ap whole_batch same,
          )
        ]
      ]

  -- Over a server that keeps the laws of `Transactions`, and whose failed commits may have happened:
  -- a batch that returns nil has been applied as a whole at least once, one that returns an error
  -- any number of times, and both at most once for each attempt.
  pub update_metrics-Applied :
      (w : p.World)
      → l.table w ≡ t0
      → Outcome
          (Applied 0 (total_attempts cfg))
          (Applied 1 (total_attempts cfg))
          (update_metrics p cfg xs w)
  unfolding update_metrics
  update_metrics-Applied w same =
      retry_do_counted p.ctx_err (attempt_batch p cfg xs) p.wait (λ k. Applied 0 k)
        (λ k. Applied 1 k)
        (record {
          calls = λ k s a.
              let (n, least, most, now) = a in
              attempt_batch_rule p cfg l (Applied 0 (k + 1)) (Applied 1 (k + 1))
                (times n whole_batch t0) xs (λ u h. (n, least, omega arith, h))
                (λ tx u h pend. committed n k tx u most h pend) s now;
          waits =
              λ k s d a. let (n, least, most, now) = a in (n, least, most, l.wait_keeps s d ∙ now);
          grows = λ k m s h a. let (n, least, most, now) = a in (n, least, omega arith, now);
          grows_done = λ k m s h a. let (n, least, most, now) = a in (n, least, omega arith, now);
        })
        cfg w (0, omega arith, omega arith, same)
