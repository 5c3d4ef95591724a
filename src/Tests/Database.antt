-- ===== src/Tests/Database.antt =====
-- Updates of a small table.
use go_musthave_metrics.Base.{ℕ, ◌≤◌, inr, ◌≡◌, refl, Option, none, some, [], if◌then◌else◌}
use go_musthave_metrics.Base.Text.{Text, codes, str_eq}
use go_musthave_metrics.Base.Ints.{pos}
use go_musthave_metrics.Retry.{RetryConfig, total_attempts}
use go_musthave_metrics.Retry.Attempts.{Outcome, retry_do-first}
use go_musthave_metrics.Storage.Db
use go_musthave_metrics.Storage.Db.Uncertain.{times, Applied, update_metrics-Applied}
use go_musthave_metrics.Storage.Db.Twice.{
  Ledger, losing, losing-Transactions, losing-UncertainCommits, one_hit, three_retries,
}
use go_musthave_metrics.Storage.Db.{
  DbError, upsert_counter, Pgx, not_begun, plain, no_rows, exhausted, delivers, update_counter,
  get_counter,
}
use go_musthave_metrics.Storage.Db.Single.{
  Cell, counter_cell, gauge_cell, delta_of, added, stored, scan_of, Rows,
  update_counter-get_counter,
}

abbrev Table : Type 0
Table = Text → Option (Cell ℕ)

abbrev postgres : Pgx ℕ
postgres = record {
  World = Table;
  Tx = Unit {0};
  exec = λ w s. (none, stored s w);
  begin_tx = λ w. (not_begun (plain (codes "busy")), w);
  tx_exec = λ t s w. (none, w);
  commit = λ t w. (none, w);
  rollback = λ t w. w;
  query_value = λ k w. (no_rows, w);
  query_delta = λ k w. (scan_of (delta_of (w k)), w);
  query_rows = λ w. (delivers [] exhausted, w);
  ctx_err = λ w. none;
  wait = λ w d. (none, w);
}

abbrev postgres_rows : Rows postgres
postgres_rows = record {
  cell = λ w. w;
  stores = λ s w j e. refl;
  fails = λ s w e q. inr (λ j. refl);
  selects_delta = λ k w h. refl;
  waits = λ w d j. refl;
}

abbrev no_retries : RetryConfig DbError
no_retries = record { max_retries = pos 0; delays = none; is_retryable_fn = none }

-- Every name is a gauge but `hits`.
abbrev table : Table
table name = if str_eq name (codes "hits") then some (counter_cell 3) else some (gauge_cell 7)

update_counter-get_counter_example :
    (n : ℕ) × (1 ≤ n)
    × (n ≤ total_attempts no_retries)
    × ((get_counter postgres no_retries
          (codes "hits")
          (stored (upsert_counter (codes "hits") 5) table)).0
        ≡ some (elim (delta_of (times n (λ c. added c 5) (table (codes "hits")))) [
          | none ↦ 0
          | some x ↦ x
        ]))
    × (stored (upsert_counter (codes "hits") 5) table (codes "Alloc") ≡ (
        if str_eq (codes "hits") (codes "Alloc")
        then times n (λ c. added c 5) (table (codes "hits"))
        else table (codes "Alloc")))
unfolding update_counter str_eq
update_counter-get_counter_example =
    update_counter-get_counter postgres no_retries postgres_rows (codes "hits") (codes "Alloc") 5
      table (stored (upsert_counter (codes "hits") 5) table)
      (retry_do-first postgres.ctx_err (λ w. postgres.exec w (upsert_counter (codes "hits") 5))
        postgres.wait no_retries table (stored (upsert_counter (codes "hits") 5) table) refl)
      (λ e h. absurd (cc))

abbrev lossy : Ledger
lossy = record { committed = []; open_statements = []; losses = 1 }

update_metrics-Applied_example :
    Outcome
      (Applied losing three_retries losing-Transactions losing-UncertainCommits [] one_hit 0
        (total_attempts three_retries))
      (Applied losing three_retries losing-Transactions losing-UncertainCommits [] one_hit 1
        (total_attempts three_retries))
      (Db.update_metrics losing three_retries one_hit lossy)
update_metrics-Applied_example =
    update_metrics-Applied losing three_retries losing-Transactions losing-UncertainCommits []
      one_hit lossy refl
