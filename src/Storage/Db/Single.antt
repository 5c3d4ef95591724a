-- ===== src/Storage/Db/Single.antt =====
-- Single updates of the table of migrations/000001_create_metrics_table.up.sql, and the reads after
-- them.
use mathlib.Core.Path.{subst}
use go_musthave_metrics.Base.{
  ℕ, zero, suc, ◌+◌, ◌≤◌, ◌⊎◌, inl, inr, Bool-cases, Option-cases, ◌≡◌, ◌≢◌, refl, sym, ◌∙◌, ap,
  Option, none, some, arith, if◌then◌else◌,
}
use go_musthave_metrics.Base.Text.{Text, str_eq, str_eq_refl, str_eq_iff}
use go_musthave_metrics.Base.Words.{Int64, add64}
use go_musthave_metrics.Retry.{Duration, RetryConfig, retry_do, total_attempts}
use go_musthave_metrics.Retry.Attempts.{Outcome, retry_do-first}
use go_musthave_metrics.Retry.Counted.{retry_do_counted}
use go_musthave_metrics.Storage.Db.Uncertain.{times}
use go_musthave_metrics.Storage.Db.{
  DbError, Statement, upsert_gauge, upsert_counter, Pgx, Scan, row, no_rows, failed, update_counter,
  get_counter, scan_counter,
}

-- A row: its check allows a delta in a counter and a value in a gauge, and nothing else.
pub data Cell (F : Type 0) : Type 0 where
  counter_cell : Int64 → Cell F
  gauge_cell : F → Cell F

abbrev pub delta_of : {F : Type 0} → Option (Cell F) → Option Int64
delta_of (some (counter_cell d)) = some d
delta_of (some (gauge_cell v)) = none
delta_of none = none

-- NULL plus a delta is NULL, so a counter's statement leaves the row of a gauge as it is.
abbrev pub added : {F : Type 0} → Option (Cell F) → Int64 → Option (Cell F)
added none d = some (counter_cell d)
added (some (counter_cell x)) d = some (counter_cell (add64 x d))
added (some (gauge_cell v)) d = some (gauge_cell v)

-- What a statement that PostgreSQL accepts leaves under the name `j`.
abbrev pub stored : {F : Type 0} → Statement F → (Text → Option (Cell F)) → Text → Option (Cell F)
stored (upsert_gauge k v) cells j = if str_eq k j then some (gauge_cell v) else cells j
stored (upsert_counter k d) cells j = if str_eq k j then added (cells k) d else cells j

abbrev pub scan_of : {A : Type 0} → Option A → Scan A
scan_of none = no_rows
scan_of (some a) = row a

-- What PostgreSQL documents of single statements, on the committed rows. A statement whose error
-- comes back may have happened, as when the connection is lost before its answer.
pub record Rows {F : Type 0} (p : Pgx F) : Type 0 where
  pub cell : p.World → Text → Option (Cell F)
  pub stores :
      (s : Statement F) (w : p.World) (j : Text)
      → (p.exec w s).0 ≡ none
      → cell (p.exec w s).1 j ≡ stored s (cell w) j
  pub fails :
      (s : Statement F) (w : p.World) (e : DbError)
      → (p.exec w s).0 ≡ some e
      → ((j : Text) → cell (p.exec w s).1 j ≡ cell w j)
        ⊎ ((j : Text) → cell (p.exec w s).1 j ≡ stored s (cell w) j)
  -- `SELECT delta FROM metrics WHERE id = $1 AND mtype = 'counter';`, where it is answered
  pub selects_delta :
      (k : Text) (w : p.World)
      → ((e : DbError) → (p.query_delta k w).0 ≢ failed e)
      → (p.query_delta k w).0 ≡ scan_of (delta_of (cell w k))
  pub waits : (w : p.World) (d : Duration) (j : Text) → cell (p.wait w d).1 j ≡ cell w j

module _ {F : Type 0} (p : Pgx F) (cfg : RetryConfig DbError) (l : Rows p) where
  -- The rows are those of `w` after `n` runs of the statement.
  abbrev Ran : Statement F → p.World → ℕ → p.World → Type 0
  Ran s w n u = (j : Text) → l.cell u j ≡ times n (stored s) (l.cell w) j

  stored-again :
      (s : Statement F) (cells after : Text → Option (Cell F))
      → ((j : Text) → after j ≡ cells j)
      → (j : Text) → stored s after j ≡ stored s cells j
  stored-again (upsert_gauge k v) cells after same j = rw (same j) refl
  stored-again (upsert_counter k d) cells after same j = rw (same j, same k) refl

  -- At least `least` and at most `most` runs.
  abbrev Times : Statement F → p.World → ℕ → ℕ → p.World → Type 0
  Times s w least most u = (n : ℕ) × (least ≤ n) × (n ≤ most) × Ran s w n u

  exec-Times :
      (s : Statement F) (w : p.World) (k : ℕ) (u : p.World)
      → Times s w 0 k u
      → Outcome (Times s w 0 (k + 1)) (Times s w 1 (k + 1)) (p.exec u s)
  exec-Times s w k u (n, least, most, same) = elim (Option-cases (p.exec u s).0) [
    | inl e ↦ rw e (
      suc n,
      omega arith,
      omega arith,
      λ j. l.stores s u j e ∙ stored-again s (times n (stored s) (l.cell w)) (l.cell u) same j,
    )
    | inr (x, e) ↦ elim (l.fails s u x e) [
      | inl lost ↦ rw e (n, omega arith, omega arith, λ j. lost j ∙ same j)
      | inr done ↦ rw e (
        suc n,
        omega arith,
        omega arith,
        λ j. done j ∙ stored-again s (times n (stored s) (l.cell w)) (l.cell u) same j,
      )
    ]
  ]

  -- An update of one metric with its retries.
  update-Times :
      (s : Statement F) (w : p.World)
      → Outcome
          (Times s w 0 (total_attempts cfg))
          (Times s w 1 (total_attempts cfg))
          (retry_do p.ctx_err (λ u. p.exec u s) p.wait cfg w)
  update-Times s w =
      retry_do_counted p.ctx_err (λ u. p.exec u s) p.wait (λ k. Times s w 0 k) (λ k. Times s w 1 k)
        (record {
          calls = λ k u a. exec-Times s w k u a;
          waits = λ k u d a.
              let (n, least, most, now) = a in (n, least, most, λ j. l.waits u d j ∙ now j);
          grows = λ k m u h a. let (n, least, most, now) = a in (n, least, omega arith, now);
          grows_done = λ k m u h a. let (n, least, most, now) = a in (n, least, omega arith, now);
        })
        cfg w (0, omega arith, omega arith, λ j. refl)

  scanned :
      (k : Text) (u : p.World) (o : Option Int64)
      → (p.query_delta k u).0 ≡ scan_of o
      → (get_counter p cfg k u).0 ≡ some (elim o [ none ↦ 0 | some x ↦ x ])
  unfolding get_counter scan_counter
  scanned k u none e =
      let c =
        retry_do-first (λ (s : p.World × Int64). p.ctx_err s.0) (scan_counter p cfg k)
          (λ s d. let (c, w') = p.wait s.0 d in (c, (w', s.1))) cfg (u, 0)
          ((p.query_delta k u).1, 0) (ground arith) in
      ground arith
  scanned k u (some x) e =
      let c =
        retry_do-first (λ (s : p.World × Int64). p.ctx_err s.0) (scan_counter p cfg k)
          (λ s d. let (c, w') = p.wait s.0 d in (c, (w', s.1))) cfg (u, 0)
          ((p.query_delta k u).1, x) (ground arith) in
      ground arith

  ended :
      (s : Statement F) (w u : p.World) (r : Option DbError × p.World)
      → Outcome (Times s w 0 (total_attempts cfg)) (Times s w 1 (total_attempts cfg)) r
      → r ≡ (none, u)
      → Times s w 1 (total_attempts cfg) u
  ended s w u (none, u') o q = subst (Times s w 1 (total_attempts cfg)) (ap (λ r. r.1) q) o
  ended s w u (some x, u') o q = absurd (cc (ap (λ r. r.0) q))

  -- A counter's statement, run again and again.
  counter-times :
      (k j : Text) (d : Int64) (cells : Text → Option (Cell F)) (n : ℕ)
      → times n (stored (upsert_counter k d)) cells j
        ≡ (if str_eq k j then times n (λ c. added c d) (cells k) else cells j)
  counter-times k j d cells zero = elim (Bool-cases (str_eq k j)) [
    | inl same ↦ rw same (ap cells (sym ((str_eq_iff k j).0 same)))
    | inr other ↦ rw other refl
  ]
  counter-times k j d cells (suc n) = elim (Bool-cases (str_eq k j)) [
    | inl same ↦ rw (same, counter-times k k d cells n, str_eq_refl k) refl
    | inr other ↦ rw (other, counter-times k j d cells n, other) refl
  ]

  -- A counter's update that returns nil, over a server on which a statement whose error comes back may
  -- have happened, has run its statement at least once and at most once for each attempt, and has
  -- changed no other row; a read after it that is answered gives the old delta with the new one added
  -- for each run, the new one from the first run on for a new name, and 0 for the name of a gauge,
  -- whose row the update leaves alone.
  pub update_counter-get_counter :
      (k j : Text) (d : Int64) (w u : p.World)
      → update_counter p cfg k d w ≡ (none, u)
      → ((e : DbError) → (p.query_delta k u).0 ≢ failed e)
      → (n : ℕ) × (1 ≤ n)
        × (n ≤ total_attempts cfg)
        × ((get_counter p cfg k u).0
            ≡ some
                (elim (delta_of (times n (λ c. added c d) (l.cell w k))) [ none ↦ 0 | some x ↦ x ]))
        × (l.cell u j ≡ (if str_eq k j then times n (λ c. added c d) (l.cell w k) else l.cell w j))
  unfolding update_counter
  update_counter-get_counter k j d w u e answered =
      let (n, least, most, ran) =
        ended (upsert_counter k d) w u _ (update-Times (upsert_counter k d) w) e in
      let rows = λ (j : Text). ran j ∙ counter-times k j d (l.cell w) n in
      (
        n,
        least,
        most,
        scanned k u (delta_of (times n (λ c. added c d) (l.cell w k))) (
            l.selects_delta k u answered
            ∙ ap (λ c. scan_of (delta_of c)) (rows k ∙ rw (str_eq_refl k) refl)),
        rows j,
      )
