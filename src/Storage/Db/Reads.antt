-- ===== src/Storage/Db/Reads.antt =====
-- Reads of one metric and of all of them.
use go_musthave_metrics.Base.{◌≡◌, Option, none, some, arith}
use go_musthave_metrics.Base.Text.{Text}
use go_musthave_metrics.Retry.{RetryConfig}
use go_musthave_metrics.Retry.Attempts.{retry_do-first}
use go_musthave_metrics.Base.Words.{Int64}
use go_musthave_metrics.Storage.Db.{
  DbError, Pgx, no_rows, get_gauge, get_counter, scan_gauge, scan_counter,
}

module _ {F : Type 0} (p : Pgx F) (cfg : RetryConfig DbError) where
  -- Where the first query finds no row, `GetGauge` reports a missing metric, and `GetCounter`
  -- reports that the metric is there with the value 0.
  pub missing_counter_reads_zero :
      (name : Text) (w u v : p.World)
      → p.query_value name w ≡ (no_rows, u)
      → p.query_delta name w ≡ (no_rows, v)
      → (get_gauge p cfg name w ≡ (none, u)) × (get_counter p cfg name w ≡ (some 0, v))
  unfolding get_gauge get_counter scan_gauge scan_counter
  missing_counter_reads_zero name w u v hg hc =
      let g =
        retry_do-first (λ (s : p.World × Option F). p.ctx_err s.0) (scan_gauge p cfg name)
          (λ s d. let (c, w') = p.wait s.0 d in (c, (w', s.1))) cfg (w, none) (u, none)
          (ground arith) in
      let c =
        retry_do-first (λ (s : p.World × Int64). p.ctx_err s.0) (scan_counter p cfg name)
          (λ s d. let (c, w') = p.wait s.0 d in (c, (w', s.1))) cfg (w, 0) (v, 0) (ground arith) in
      (ground arith, ground arith)
