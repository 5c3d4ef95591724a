-- ===== src/Server/Database.antt =====
-- internal/config/db: the connection to PostgreSQL and its migrations. pgx, database/sql and
-- golang-migrate are steps of a state `W`; log lines are left out.
use go_musthave_metrics.Base.{Bool, true, false, Option, none, some, ◌++◌}
use go_musthave_metrics.Base.Text.{Text, codes}
use go_musthave_metrics.Base.Results.{Error, Result, ok, err}

-- Package pgxpool. `connect_config` has MaxConns 10 and MinConns 2.
pub record Pgx (Pool W : Type 0) : Type 0 where
  pub parse_config : Text → Option Error
  pub connect_config : Text → W → Result Pool × W
  pub ping : Pool → W → Option Error × W
  pub close : Pool → W → W

-- The error of migrate's `Up`.
pub data MigrateError : Type 0 where
  no_change : MigrateError
  failed : Error → MigrateError

-- The calls of `Migrator.Up`, in their order.
pub record Migrate (W : Type 0) : Type 0 where
  pub open_db : Text → W → Option Error × W
  pub ping_db : W → Option Error × W
  pub with_instance : W → Option Error × W
  pub new_migrate : Text → W → Option Error × W
  pub up : W → Option MigrateError × W
  pub close_db : W → W

-- `if err != nil { return fmt.Errorf(msg + ": %w", err) }`, then the rest.
abbrev or_fail : {W : Type 0} → Text → (W → Option Error × W) → Option Error × W → Option Error × W
or_fail msg next (some e, w) = (some (msg ++ e), w)
or_fail msg next (none, w) = next w

module _ {Pool W : Type 0} (pgx : Pgx Pool W) where
  unfoldable connect : Text → W → Result Pool × W
  connect dsn w = elim (pgx.parse_config dsn) [
    | some e ↦ (err (codes "failed to parse DSN: " ++ e), w)
    | none ↦
        let (r, w1) = pgx.connect_config dsn w in
        elim r [
          | err e ↦ (err (codes "failed to connect to database: " ++ e), w1)
          | ok pool ↦
              let (e, w2) = pgx.ping pool w1 in
              elim e [
                | some x ↦ (err (codes "database ping failed: " ++ x), pgx.close pool w2)
                | none ↦ (ok pool, w2)
              ]
        ]
  ]

  -- `NewDatabase` never fails: `none` is the nil pool.
  pub new_database : Text → W → Option Pool × W
  unfolding connect
  new_database dsn w =
      let (r, w') = connect dsn w in (elim r [ err e ↦ none | ok pool ↦ some pool ], w')

  pub is_connected : Option Pool → W → Bool × W
  is_connected none w = (false, w)
  is_connected (some pool) w =
      let (e, w') = pgx.ping pool w in (elim e [ none ↦ true | some x ↦ false ], w')

module _ {W : Type 0} (migrate : Migrate W) where
  abbrev up_error : Option MigrateError → Option Error
  up_error none = none
  up_error (some no_change) = none
  up_error (some (failed e)) = some (codes "migrate up failed: " ++ e)

  -- From the open database on; `defer db.Close()` comes last.
  abbrev migrated : Text → W → Option Error × W
  migrated path w =
      or_fail (codes "failed to ping DB for migrations: ")
        (λ w1.
          or_fail (codes "failed to create postgres migrate driver: ")
            (λ w2.
              or_fail (codes "failed to initialize migrate: ")
                (λ w3. let (e, w4) = migrate.up w3 in (up_error e, w4))
                (migrate.new_migrate (codes "file://" ++ path) w2))
            (migrate.with_instance w1))
        (migrate.ping_db w)

  pub migrator_up : Text → Text → W → Option Error × W
  migrator_up dsn path w =
      or_fail (codes "failed to open sql.DB for migrations: ")
        (λ w1. let (e, w2) = migrated path w1 in (e, migrate.close_db w2)) (migrate.open_db dsn w)
