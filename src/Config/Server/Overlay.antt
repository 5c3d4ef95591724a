-- ===== src/Config/Server/Overlay.antt =====
-- Where each setting of the server comes from.
use go_musthave_metrics.Base.{◌≡◌, refl, false, Option, none, some, List, [], All}
use go_musthave_metrics.Base.Text.{Text, codes}
use go_musthave_metrics.Base.Results.{Error}
use go_musthave_metrics.Base.Ints.{pos}
use go_musthave_metrics.Config.{ServerFlags, default_delays, set_default_server_flag}
use go_musthave_metrics.Config.Sources.{
  Pflag, Variables, parsed, Bound, Tag, Environment, Overlaid, FromText, FromInt, FromBool,
  FromTexts, Chosen, or_else,
}
use go_musthave_metrics.Config.Server.{
  zero_server_flags, server_tags, server_flags, bind_server_flags, parse_server_config,
}

-- The settings of `cfg`, each from its variable if that is not empty, or else from what the command
-- line gives to its flag, or else from a default. For the log level the flag counts only where the
-- variable is set to the empty text.
abbrev pub FromSources : Pflag → Environment → List Text → ServerFlags → Type 0
FromSources pflag env args cfg =
    FromText env (pflag.given_string args (codes "a")) (codes ":8080") (codes "ADDRESS")
      cfg.server_addr
    × Chosen some (or_else (pflag.given_string args (codes "g")) (codes "info")) (codes "info")
        (env.variable (codes "LOGLEVEL")) cfg.log_level
    × FromInt env (pflag.given_int args (codes "i")) (pos 300) (codes "STORE_INTERVAL")
        cfg.store_interval
    × FromText env (pflag.given_string args (codes "f")) (codes "metrics.json")
        (codes "FILE_STORAGE_PATH") cfg.file_storage_path
    × FromBool env (pflag.given_bool args (codes "r")) false (codes "RESTORE") cfg.restore
    × FromText env (pflag.given_string args (codes "d")) [] (codes "DATABASE_DSN") cfg.database_dsn
    × FromText env (pflag.given_string args (codes "k")) [] (codes "KEY") cfg.secret_ket
    × FromInt env (pflag.given_int args (codes "l")) (pos 0) (codes "RATE_LIMIT") cfg.rate_limit
    × FromInt env (pflag.given_int args (codes "m")) (pos 3) (codes "MAX_RETRIES") cfg.max_retries
    × FromTexts env (pflag.given_string_array args (codes "s")) default_delays
        (codes "RETRY_DELAYS") cfg.retry_delays
    × FromText env (pflag.given_string args (codes "z")) [] (codes "AUDIT_FILE") cfg.audit_file
    × FromText env (pflag.given_string args (codes "u")) [] (codes "AUDIT_URL") cfg.audit_url

-- When the parse of the flags returns, and the environment is parsed without an error, the server
-- starts with, for each setting, its variable if that is set and not empty, else what its flag gives,
-- else the default that the flag declares, which is `:8080` for the address. The log level alone is
-- `info` where its variable is not set, whatever the flag says.
pub parse_server_config-from :
    (pflag : Pflag) (env : Environment)
    (env_parse : List (Tag ServerFlags) → ServerFlags → Option Error × ServerFlags)
    (args : List Text) (e : Option Error) (vars : Variables)
    → pflag.parse server_flags args ≡ parsed e vars
    → All (Bound pflag args vars) server_flags
    → (env_parse server_tags (bind_server_flags (set_default_server_flag zero_server_flags) vars)).0
      ≡ none
    → ((old : ServerFlags)
        → (env_parse server_tags old).0 ≡ none
        → All (Overlaid env old (env_parse server_tags old).1) server_tags)
    → (cfg : ServerFlags) × (parse_server_config pflag env_parse args ≡ some cfg)
      × FromSources pflag env args cfg
unfolding parse_server_config set_default_server_flag
parse_server_config-from pflag env env_parse args e vars run bound fine law =
    let flagged : ServerFlags =
      bind_server_flags (set_default_server_flag zero_server_flags) vars in
    let (a, (g, (i, (f, (r, (d, (k, (l, (m, (s, (z, (u, _)))))))))))) = law flagged fine in
    let (ba, (bg, (bi, (bf, (br, (bd, (bk, (bl, (bm, (bs, (bz, (bu, _)))))))))))) = bound in
    (
      (env_parse server_tags flagged).1,
      rw (run, parse_server_config) refl,
      (
        rw (← ba) a,
        rw (← bg) g,
        rw (← bi) i,
        rw (← bf) f,
        rw (← br) r,
        rw (← bd) d,
        rw (← bk) k,
        rw (← bl) l,
        rw (← bm) m,
        rw (← bs) s,
        rw (← bz) z,
        rw (← bu) u,
      ),
    )
