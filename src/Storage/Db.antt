-- ===== src/Storage/Db.antt =====
-- internal/repository/dbstorage/dbstorage.go. PostgreSQL and the driver pgx are parameters: the
-- source's SQL texts are the constructors of `Statement` and the queries of `Pgx`.
pub mod Atomic
pub mod Instance
pub mod Uncertain
pub mod Twice
pub mod Reads
pub mod Single
use go_musthave_metrics.Base.{
  Bool, true, false, ◌||◌, ◌&&◌, ◌⊎◌, inl, inr, Option, none, some, List, [], ◌∷◌, ◌++◌,
  if◌then◌else◌,
}
use go_musthave_metrics.Base.Text.{Text, codes, str_eq, contains}
use go_musthave_metrics.Base.Words.{Int64}
use go_musthave_metrics.Base.Decimal.{format_int}
use go_musthave_metrics.Retry.{Duration, RetryConfig, retry_do}
use go_musthave_metrics.Model.{Metrics, counter, gauge}

-- The codes of package pgerrcode that the source names.
pub data PgCode : Type 0 where
  admin_shutdown cannot_connect_now connection_exception connection_does_not_exist : PgCode
  connection_failure sqlclient_unable_to_establish sqlserver_rejected : PgCode
  transaction_resolution_unknown other_code : PgCode

abbrev is_some {ℓ} : {A : Type ℓ} → Option A → Bool
is_some none = false
is_some (some a) = true

-- An error of the driver, under the texts that `fmt.Errorf("…%w")` puts in front of it.
pub data DbError : Type 0 where
  pg : PgCode → Text → DbError
  plain : Text → DbError

abbrev wrap : Text → DbError → DbError
wrap t (pg c m) = pg c (t ++ m)
wrap t (plain m) = plain (t ++ m)

is_connection_code : PgCode → Bool
is_connection_code other_code = false
is_connection_code _ = true

pub is_connection_error : DbError → Bool
unfolding is_connection_code
is_connection_error (pg c m) = is_connection_code c
is_connection_error (plain m) =
    contains m (codes "connection refused")
    || contains m (codes "network")
    || contains m (codes "timeout")

-- `upsert_gauge` sets the value of the row; `upsert_counter` adds to its delta.
pub data Statement (F : Type 0) : Type 0 where
  upsert_gauge : Text → F → Statement F
  upsert_counter : Text → Int64 → Statement F

pub data Scan (A : Type 0) : Type 0 where
  row : A → Scan A
  no_rows : Scan A
  failed : DbError → Scan A

pub data Begun (Tx : Type 0) : Type 0 where
  begun : Tx → Begun Tx
  not_begun : DbError → Begun Tx

-- A row of `SELECT id, mtype, delta, value FROM metrics;`, `none` for NULL.
pub record Row (F : Type 0) : Type 0 where
  pub id : Text
  pub mtype : Text
  pub delta : Option Int64
  pub value : Option F

pub data RowsEnd : Type 0 where
  exhausted : RowsEnd
  scan_failed iteration_failed : DbError → RowsEnd

pub data Rows (F : Type 0) : Type 0 where
  refused : DbError → Rows F
  delivers : List (Row F) → RowsEnd → Rows F

-- The pool, the server behind it, and the context of the call.
pub record Pgx (F : Type 0) : Type 1 where
  pub World : Type 0
  pub Tx : Type 0
  pub exec : World → Statement F → Option DbError × World
  pub begin_tx : World → Begun Tx × World
  pub tx_exec : Tx → Statement F → World → Option DbError × World
  pub commit : Tx → World → Option DbError × World
  pub rollback : Tx → World → World
  pub query_value : Text → World → Scan F × World
  pub query_delta : Text → World → Scan Int64 × World
  pub query_rows : World → Rows F × World
  pub ctx_err : World → Option DbError
  pub wait : World → Duration → Option DbError × World

module _ {F : Type 0} (p : Pgx F) (cfg : RetryConfig DbError) where
  open p use {
    World, Tx, exec, begin_tx, tx_exec, commit, rollback, query_value, query_delta, query_rows,
    ctx_err, wait,
  }

  unfoldable pub update_gauge : Text → F → World → Option DbError × World
  update_gauge name value = retry_do ctx_err (λ w. exec w (upsert_gauge name value)) wait cfg

  unfoldable pub update_counter : Text → Int64 → World → Option DbError × World
  update_counter name value = retry_do ctx_err (λ w. exec w (upsert_counter name value)) wait cfg

  -- The statement of one metric, with the text that an error gets; `none` is skipped.
  pub batch_statement : Metrics F → Option (Text × Statement F)
  batch_statement metric =
      if str_eq metric.mtype gauge
      then elim metric.value [
        | none ↦ none
        | some v ↦ some (
          codes "failed to update gauge metric " ++ metric.id ++ codes ": ",
          upsert_gauge metric.id v,
        )
      ]
      else if str_eq metric.mtype counter
      then elim metric.delta [
        | none ↦ none
        | some d ↦ some (
          codes "failed to update counter metric " ++ metric.id ++ codes ": ",
          upsert_counter metric.id d,
        )
      ]
      else none

  -- The loop of the batch inside one transaction; it returns at the first error.
  exec_batch : Tx → List (Metrics F) → World → Option DbError × World
  exec_batch tx [] w = (none, w)
  exec_batch tx (metric ∷ metrics) w = elim (batch_statement metric) [
    | none ↦ exec_batch tx metrics w
    | some (text, st) ↦
        let (e, w1) = tx_exec tx st w in
        elim e [ some err ↦ (some (wrap text err), w1) | none ↦ exec_batch tx metrics w1 ]
  ]

  -- One attempt: the deferred rollback runs on every way out after `Begin`.
  pub attempt_batch : List (Metrics F) → World → Option DbError × World
  attempt_batch metrics w =
      let (t, w1) = begin_tx w in
      elim t [
        | not_begun e ↦ (some e, w1)
        | begun tx ↦
            let (e, w2) = exec_batch tx metrics w1 in
            elim e [
              | some err ↦ (some err, rollback tx w2)
              | none ↦ let (c, w3) = commit tx w2 in (c, rollback tx w3)
            ]
      ]

  pub update_metrics : List (Metrics F) → World → Option DbError × World
  update_metrics metrics = retry_do ctx_err (attempt_batch metrics) wait cfg

  -- `GetGauge`: what the attempt found is kept beside the world.
  scan_gauge : Text → World × Option F → Option DbError × (World × Option F)
  scan_gauge name (w, found) =
      let (r, w1) = query_value name w in
      elim r [
        | failed e ↦ (some e, (w1, found))
        | no_rows ↦ (none, (w1, found))
        | row v ↦ (none, (w1, some v))
      ]

  pub get_gauge : Text → World → Option F × World
  get_gauge name w =
      let (e, (w1, found)) =
        retry_do (λ s. ctx_err s.0) (scan_gauge name)
          (λ s d. let (c, w') = wait s.0 d in (c, (w', s.1))) cfg (w, none) in
      (elim e [ some err ↦ none | none ↦ found ], w1)

  -- `GetCounter`: the variable `delta` starts at 0, and no row leaves it there.
  scan_counter : Text → World × Int64 → Option DbError × (World × Int64)
  scan_counter name (w, delta) =
      let (r, w1) = query_delta name w in
      elim r [
        | failed e ↦ (some e, (w1, delta))
        | no_rows ↦ (none, (w1, delta))
        | row d ↦ (none, (w1, d))
      ]

  pub get_counter : Text → World → Option Int64 × World
  get_counter name w =
      let (e, (w1, delta)) =
        retry_do (λ s. ctx_err s.0) (scan_counter name)
          (λ s d. let (c, w') = wait s.0 d in (c, (w', s.1))) cfg (w, 0) in
      (elim e [ some err ↦ none | none ↦ some delta ], w1)

  module _ (format_float : F → Text) where
    row_text : Row F → Text
    row_text r =
        codes "<li>"
        ++ r.id
        ++ codes " = "
        ++ (if str_eq r.mtype counter && is_some r.delta
            then elim r.delta [ some d ↦ format_int d | none ↦ [] ]
            else if str_eq r.mtype gauge && is_some r.value
            then elim r.value [ some v ↦ format_float v | none ↦ [] ]
            else [])
        ++ codes "</li>\n"

    rows_text : List (Row F) → Text
    rows_text [] = []
    rows_text (r ∷ rs) = row_text r ++ rows_text rs

    -- One attempt of `GetAllMetrics`; the builder stands outside the retries and is not reset.
    print_rows : World × Text → Option DbError × (World × Text)
    print_rows (w, built) =
        let (r, w1) = query_rows w in
        elim r [
          | refused e ↦ (some e, (w1, built))
          | delivers rs end ↦
              let built1 = built ++ codes "<ul>\n" ++ rows_text rs in
              elim end [
                | scan_failed e ↦
                    (some (wrap (codes "failed to scan metric row: ") e), (w1, built1))
                | iteration_failed e ↦ (some (wrap (codes "row iteration error: ") e), (w1, built1))
                | exhausted ↦ elim rs [
                  | [] ↦ (some (plain (codes "no metrics found")), (w1, built1))
                  | _ ∷ _ ↦ (none, (w1, built1 ++ codes "</ul>\n"))
                ]
              ]
        ]

    pub get_all_metrics : World → (DbError ⊎ Text) × World
    get_all_metrics w =
        let (e, (w1, built)) =
          retry_do (λ s. ctx_err s.0) print_rows (λ s d. let (c, w') = wait s.0 d in (c, (w', s.1)))
            cfg (w, []) in
        (elim e [ some err ↦ inl err | none ↦ inr built ], w1)
