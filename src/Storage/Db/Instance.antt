-- ===== src/Storage/Db/Instance.antt =====
-- `Ping` and `Close` of dbstorage.go, and the database storage behind the interface.
use go_musthave_metrics.Base.{Option, none, some, inl, inr}
use go_musthave_metrics.Base.Text.{Text, codes}
use go_musthave_metrics.Base.Results.{Error, ok, err}
use go_musthave_metrics.Retry.{RetryConfig}
use go_musthave_metrics.Storage.Interface.{Storage}
use go_musthave_metrics.Storage.Db.{
  DbError, pg, plain, Pgx, update_gauge, update_counter, update_metrics, get_gauge, get_counter,
  get_all_metrics,
}

-- `err.Error()`
abbrev pub text_of : DbError → Error
text_of (pg code m) = m
text_of (plain m) = m

abbrev pub failure : Option DbError → Option Error
failure none = none
failure (some e) = some (text_of e)

-- `none` is the nil pool.
pub ping_pool : {W : Type 0} → Option (W → Option DbError × W) → W → Option DbError × W
ping_pool none w = (some (plain (codes "database not connected")), w)
ping_pool (some pgx_ping) w = pgx_ping w

-- pgxpool's `Close` returns nothing.
close : {W : Type 0} → (W → W) → W → Option DbError × W
close pgx_close w = (none, pgx_close w)

module _ {F : Type 0} (p : Pgx F) (cfg : RetryConfig DbError) (format_float : F → Text)
    (pgx_ping : Option (p.World → Option DbError × p.World)) where
  abbrev pub db_storage : Storage F p.World
  db_storage = record {
    update_gauge = λ k v w. let (e, w') = update_gauge p cfg k v w in (failure e, w');
    update_counter = λ k d w. let (e, w') = update_counter p cfg k d w in (failure e, w');
    update_metrics = λ ms w. let (e, w') = update_metrics p cfg ms w in (failure e, w');
    get_gauge = get_gauge p cfg;
    get_counter = get_counter p cfg;
    get_all_metrics = λ w.
        let (r, w') = get_all_metrics p cfg format_float w in
        (elim r [ inl e ↦ err (text_of e) | inr t ↦ ok t ], w');
    ping = λ w. let (e, w') = ping_pool pgx_ping w in (failure e, w');
  }
