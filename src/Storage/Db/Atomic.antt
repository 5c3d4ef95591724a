-- ===== src/Storage/Db/Atomic.antt =====
-- One attempt of a batch against the database.
use go_musthave_metrics.Base.{
  ◌≡◌, refl, sym, ◌∙◌, ap, ◌⊎◌, inl, inr, Option, none, some, List, [], ◌∷◌, ◌++◌, Option-cases,
  arith, if◌then◌else◌,
}
use mathlib.Core.List.{append_assoc, append-nil}
use go_musthave_metrics.Retry.{Duration, RetryConfig}
use go_musthave_metrics.Retry.Attempts.{Outcome}
use go_musthave_metrics.Base.Text.{codes, str_eq}
use go_musthave_metrics.Model.{Metrics}
use go_musthave_metrics.Storage.Db.{
  DbError, Statement, upsert_gauge, upsert_counter, Pgx, Begun, begun, not_begun, batch_statement,
  exec_batch, attempt_batch,
}

abbrev pub apply_all : {S T : Type 0} → (S → T → T) → List S → T → T
apply_all f [] t = t
apply_all f (s ∷ ss) t = apply_all f ss (f s t)

-- What PostgreSQL documents of a transaction, on the committed contents of the table: `apply` is
-- the effect of one statement, `pending` what the transaction has executed so far.
pub record Transactions {F : Type 0} (p : Pgx F) : Type 1 where
  pub Table : Type 0
  pub table : p.World → Table
  pub apply : Statement F → Table → Table
  pub pending : p.Tx → p.World → List (Statement F)
  pub begin_keeps : (w : p.World) → table (p.begin_tx w).1 ≡ table w
  pub begin_empty :
      (w : p.World) (t : p.Tx) → (p.begin_tx w).0 ≡ begun t → pending t (p.begin_tx w).1 ≡ []
  pub exec_keeps : (t : p.Tx) (s : Statement F) (w : p.World) → table (p.tx_exec t s w).1 ≡ table w
  pub exec_adds :
      (t : p.Tx) (s : Statement F) (w : p.World)
      → (p.tx_exec t s w).0 ≡ none
      → pending t (p.tx_exec t s w).1 ≡ pending t w ++ s ∷ []
  pub rollback_keeps : (t : p.Tx) (w : p.World) → table (p.rollback t w) ≡ table w
  pub commit_applies :
      (t : p.Tx) (w : p.World)
      → (p.commit t w).0 ≡ none
      → table (p.commit t w).1 ≡ apply_all apply (pending t w) (table w)
  pub wait_keeps : (w : p.World) (d : Duration) → table (p.wait w d).1 ≡ table w

Begun-cases :
    {Tx : Type 0} (b : Begun Tx) → ((t : Tx) × (b ≡ begun t)) ⊎ ((e : DbError) × (b ≡ not_begun e))
Begun-cases (begun t) = inl (t, refl)
Begun-cases (not_begun e) = inr (e, refl)

module _ {F : Type 0} (p : Pgx F) (cfg : RetryConfig DbError) where
  -- What can be stored of a metric: a gauge that has a value, and a counter that has a delta.
  pub stored_as : Metrics F → Option (Statement F)
  stored_as x =
      if str_eq x.mtype (codes "gauge")
      then elim x.value [ none ↦ none | some v ↦ some (upsert_gauge x.id v) ]
      else if str_eq x.mtype (codes "counter")
      then elim x.delta [ none ↦ none | some d ↦ some (upsert_counter x.id d) ]
      else none

  -- The statements of a batch, in order; what cannot be stored is skipped.
  pub statements : List (Metrics F) → List (Statement F)
  statements [] = []
  statements (x ∷ xs) = elim (stored_as x) [ none ↦ statements xs | some s ↦ s ∷ statements xs ]

  batch_statement-stored_as :
      (x : Metrics F)
      → elim (batch_statement p cfg x) [ none ↦ none | some t ↦ some t.1 ] ≡ stored_as x
  unfolding batch_statement stored_as
  batch_statement-stored_as x = ground arith

  module _ (l : Transactions p) where
    open l use {Table, table, apply, pending, exec_keeps, exec_adds}

    -- A part of the batch has run: the table is as it was, and without an error the statements
    -- are pending.
    abbrev Ran : p.Tx → p.World → List (Statement F) → Option DbError × p.World → Type 0
    Ran t w ss r = (table r.1 ≡ table w) × (r.0 ≡ none → pending t r.1 ≡ pending t w ++ ss)

    exec_batch-Ran :
        (t : p.Tx) (xs : List (Metrics F)) (w : p.World)
        → Ran t w (statements xs) (exec_batch p cfg t xs w)
    unfolding exec_batch statements
    exec_batch-Ran t [] w = (refl, λ _. sym (append-nil (pending t w)))
    exec_batch-Ran t (x ∷ xs) w = elim (Option-cases (batch_statement p cfg x)) [
      | inl e ↦
          let q : stored_as x ≡ none = ground (arith, batch_statement-stored_as x, e) in
          rw (e, q, exec_batch, statements) (exec_batch-Ran t xs w)
      | inr ((text, s), e) ↦
          let q : stored_as x ≡ some s = ground (arith, batch_statement-stored_as x, e) in
          elim (Option-cases (p.tx_exec t s w).0) [
            | inr (err, f) ↦ rw (e, q, exec_batch, statements) (rw f (exec_keeps t s w, λ h. cc))
            | inl f ↦
                let w1 = (p.tx_exec t s w).1 in
                let (same, adds) = exec_batch-Ran t xs w1 in
                rw (e, q, exec_batch, statements)
                  (rw f (
                    same ∙ exec_keeps t s w,
                    λ h.
                        adds h
                        ∙ ap (λ q. q ++ statements xs) (exec_adds t s w f)
                        ∙ append_assoc (pending t w) (s ∷ []) (statements xs),
                  ))
          ]
    ]

    -- One attempt on a table `t0`: what holds of a table that was not changed, and what the commit
    -- of the whole batch brings about.
    module _ (P Q : p.World → Type 0) (t0 : Table) (xs : List (Metrics F))
        (unchanged : (w : p.World) → table w ≡ t0 → P w)
        (settled : (tx : p.Tx) (w : p.World)
          → table w ≡ t0
          → pending tx w ≡ statements xs
          → Outcome P Q ((p.commit tx w).0, p.rollback tx (p.commit tx w).1)) where
      began :
          (tx : p.Tx) (w : p.World)
          → table w ≡ t0
          → pending tx w ≡ []
          → Outcome {E = DbError} P Q (
              let (e, w2) = exec_batch p cfg tx xs w in
              elim e [
                | some err ↦ (some err, p.rollback tx w2)
                | none ↦ let (c, w3) = p.commit tx w2 in (c, p.rollback tx w3)
              ])
      began tx w same empty =
          let (kept, adds) = exec_batch-Ran tx xs w in
          let w2 = (exec_batch p cfg tx xs w).1 in
          elim (Option-cases (exec_batch p cfg tx xs w).0) [
            | inl ok ↦
                rw ok (settled tx w2 (kept ∙ same) (adds ok ∙ ap (λ q. q ++ statements xs) empty))
            | inr (e, bad) ↦
                rw bad (unchanged (p.rollback tx w2) (l.rollback_keeps tx w2 ∙ kept ∙ same))
          ]

      pub attempt_batch_rule : (w : p.World) → table w ≡ t0 → Outcome P Q (attempt_batch p cfg xs w)
      unfolding attempt_batch
      attempt_batch_rule w same =
          let w1 = (p.begin_tx w).1 in
          elim (Begun-cases (p.begin_tx w).0) [
            | inl (tx, e) ↦
                rw (e, attempt_batch) (began tx w1 (l.begin_keeps w ∙ same) (l.begin_empty w tx e))
            | inr (x, e) ↦ rw (e, attempt_batch) (unchanged w1 (l.begin_keeps w ∙ same))
          ]
