-- ===== src/Storage/Db/Twice.antt =====
-- A server that loses the answer of its first commit: a run of a batch against it.
use go_musthave_metrics.Base.{ℕ, zero, suc, ◌≡◌, refl, inr, Option, none, some, List, [], ◌∷◌, ◌++◌}
use go_musthave_metrics.Base.Text.{codes, str_eq}
use go_musthave_metrics.Base.Ints.{pos}
use go_musthave_metrics.Retry.{RetryConfig, retry_do}
use go_musthave_metrics.Model.{Metrics, counter}
use go_musthave_metrics.Storage.Db.{
  DbError, pg, transaction_resolution_unknown, is_connection_error, Statement, upsert_counter, Pgx,
  begun, no_rows, delivers, exhausted, exec_batch, batch_statement, attempt_batch, update_metrics,
}
use go_musthave_metrics.Storage.Db.Atomic.{apply_all, Transactions}
use go_musthave_metrics.Storage.Db.Uncertain.{UncertainCommits}

-- The statements that were committed, newest first; those of the open transaction; and how many
-- answers will be lost.
pub record Ledger : Type 0 where
  pub committed : List (Statement ℕ)
  pub open_statements : List (Statement ℕ)
  pub losses : ℕ

abbrev pub all_committed : Ledger → Ledger
all_committed w = record w {
  committed = apply_all (λ s l. s ∷ l) w.open_statements w.committed;
  open_statements = [];
}

abbrev pub commit_losing : ℕ → Ledger → Option DbError × Ledger
commit_losing zero w = (none, all_committed w)
commit_losing (suc n) w = (
  some (pg transaction_resolution_unknown (codes "connection lost")),
  record (all_committed w) { losses = n },
)

pub committed_anyway :
    (n : ℕ) (w : Ledger)
    → (commit_losing n w).1.committed ≡ apply_all (λ s l. s ∷ l) w.open_statements w.committed
committed_anyway zero w = refl
committed_anyway (suc n) w = refl

abbrev pub losing : Pgx ℕ
losing = record {
  World = Ledger;
  Tx = Unit {0};
  exec = λ w s. (none, w);
  begin_tx = λ w. (begun tt, record w { open_statements = [] });
  tx_exec = λ t s w. (none, record w { open_statements = w.open_statements ++ s ∷ [] });
  commit = λ t w. commit_losing w.losses w;
  rollback = λ t w. record w { open_statements = [] };
  query_value = λ k w. (no_rows, w);
  query_delta = λ k w. (no_rows, w);
  query_rows = λ w. (delivers [] exhausted, w);
  ctx_err = λ w. none;
  wait = λ w d. (none, w);
}

abbrev pub losing-Transactions : Transactions losing
losing-Transactions = record {
  Table = List (Statement ℕ);
  table = λ w. w.committed;
  apply = λ s l. s ∷ l;
  pending = λ t w. w.open_statements;
  begin_keeps = λ w. refl;
  begin_empty = λ w t e. refl;
  exec_keeps = λ t s w. refl;
  exec_adds = λ t s w e. refl;
  rollback_keeps = λ t w. refl;
  commit_applies = λ t w e. committed_anyway w.losses w;
  wait_keeps = λ w d. refl;
}

abbrev pub losing-UncertainCommits : UncertainCommits losing-Transactions
losing-UncertainCommits = record { commit_unknown = λ t w e h. inr (committed_anyway w.losses w) }

abbrev pub one_hit : List (Metrics ℕ)
one_hit =
    record { id = codes "hits"; mtype = counter; delta = some 5; value = none; hash = [] } ∷ []

abbrev pub three_retries : RetryConfig DbError
three_retries = record {
  max_retries = pos 3;
  delays = none;
  is_retryable_fn = some is_connection_error;
}

-- The retry after the lost answer adds the delta a second time, and the update returns nil.
hit_counted_twice :
    update_metrics losing three_retries one_hit
      (record { committed = []; open_statements = []; losses = 1 })
    ≡ (
      none,
      record {
        committed = upsert_counter (codes "hits") 5 ∷ upsert_counter (codes "hits") 5 ∷ [];
        open_statements = [];
        losses = 0;
      },
    )
unfolding update_metrics attempt_batch exec_batch batch_statement str_eq is_connection_error
    retry_do
hit_counted_twice = refl
