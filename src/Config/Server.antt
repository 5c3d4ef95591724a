-- ===== src/Config/Server.antt =====
-- `ParseServerConfig` of internal/config/server.go. What it logs is left out.
pub mod Overlay
use go_musthave_metrics.Base.{Option, none, some, List, [], ◌∷◌, false}
use go_musthave_metrics.Base.Text.{Text, codes}
use go_musthave_metrics.Base.Results.{Error}
use go_musthave_metrics.Base.Ints.{pos}
use go_musthave_metrics.Config.{ServerFlags, default_delays, set_default_server_flag}
use go_musthave_metrics.Config.Sources.{
  Flag, string_var_p, int_var_p, bool_var_p, string_array_var_p, Variables, Outcome, exits, parsed,
  Pflag, Tag, text_tag, int_tag, bool_tag, texts_tag,
}

-- What `var cfg ServerFlags` holds.
abbrev pub zero_server_flags : ServerFlags
zero_server_flags = record {
  server_addr = [];
  log_level = [];
  store_interval = pos 0;
  file_storage_path = [];
  restore = false;
  database_dsn = [];
  secret_ket = [];
  rate_limit = pos 0;
  max_retries = pos 0;
  retry_delays = [];
  audit_file = [];
  audit_url = [];
}

-- The tags of the struct.
abbrev pub server_tags : List (Tag ServerFlags)
server_tags =
    text_tag (codes "ADDRESS") none
      (record { get = λ c. c.server_addr; set = λ c v. record c { server_addr = v } })
    ∷ text_tag (codes "LOGLEVEL") (some (codes "info"))
        (record { get = λ c. c.log_level; set = λ c v. record c { log_level = v } })
    ∷ int_tag (codes "STORE_INTERVAL")
        (record { get = λ c. c.store_interval; set = λ c v. record c { store_interval = v } })
    ∷ text_tag (codes "FILE_STORAGE_PATH") none
        (record { get = λ c. c.file_storage_path; set = λ c v. record c { file_storage_path = v } })
    ∷ bool_tag (codes "RESTORE")
        (record { get = λ c. c.restore; set = λ c v. record c { restore = v } })
    ∷ text_tag (codes "DATABASE_DSN") none
        (record { get = λ c. c.database_dsn; set = λ c v. record c { database_dsn = v } })
    ∷ text_tag (codes "KEY") none
        (record { get = λ c. c.secret_ket; set = λ c v. record c { secret_ket = v } })
    ∷ int_tag (codes "RATE_LIMIT")
        (record { get = λ c. c.rate_limit; set = λ c v. record c { rate_limit = v } })
    ∷ int_tag (codes "MAX_RETRIES")
        (record { get = λ c. c.max_retries; set = λ c v. record c { max_retries = v } })
    ∷ texts_tag (codes "RETRY_DELAYS")
        (record { get = λ c. c.retry_delays; set = λ c v. record c { retry_delays = v } })
    ∷ text_tag (codes "AUDIT_FILE") none
        (record { get = λ c. c.audit_file; set = λ c v. record c { audit_file = v } })
    ∷ text_tag (codes "AUDIT_URL") none
        (record { get = λ c. c.audit_url; set = λ c v. record c { audit_url = v } })
    ∷ []

abbrev pub server_flags : List Flag
server_flags =
    string_var_p (codes "address") (codes "a") (codes ":8080")
    ∷ string_var_p (codes "loglevel") (codes "g") (codes "info")
    ∷ int_var_p (codes "strIntrvl") (codes "i") (pos 300)
    ∷ string_var_p (codes "filePath") (codes "f") (codes "metrics.json")
    ∷ bool_var_p (codes "restore") (codes "r") false
    ∷ string_var_p (codes "database_dsn") (codes "d") []
    ∷ string_var_p [] (codes "k") []
    ∷ int_var_p (codes "ratelimit") (codes "l") (pos 0)
    ∷ int_var_p (codes "max-retries") (codes "m") (pos 3)
    ∷ string_array_var_p (codes "retry-delays") (codes "s") default_delays
    ∷ string_var_p (codes "audit-file") (codes "z") []
    ∷ string_var_p (codes "audit-url") (codes "u") []
    ∷ []

-- The variables that the flags are bound to are the fields of the struct.
abbrev pub bind_server_flags : ServerFlags → Variables → ServerFlags
bind_server_flags cfg vars = record cfg {
  server_addr = vars.string (codes "a");
  log_level = vars.string (codes "g");
  store_interval = vars.int (codes "i");
  file_storage_path = vars.string (codes "f");
  restore = vars.bool (codes "r");
  database_dsn = vars.string (codes "d");
  secret_ket = vars.string (codes "k");
  rate_limit = vars.int (codes "l");
  max_retries = vars.int (codes "m");
  retry_delays = vars.string_array (codes "s");
  audit_file = vars.string (codes "z");
  audit_url = vars.string (codes "u");
}

module _ (pflag : Pflag)
    (env_parse : List (Tag ServerFlags) → ServerFlags → Option Error × ServerFlags) where
  -- An error of the flags is only logged; `none` is the end of the program.
  abbrev parse_server_flag : List Text → ServerFlags → Option ServerFlags
  parse_server_flag args cfg = elim (pflag.parse server_flags args) [
    | exits ↦ none
    | parsed e vars ↦ some (bind_server_flags cfg vars)
  ]

  -- So is an error of the environment, and what was set before it stays.
  abbrev parse_server_env : ServerFlags → ServerFlags
  parse_server_env cfg = (env_parse server_tags cfg).1

  pub parse_server_config : List Text → Option ServerFlags
  unfolding set_default_server_flag
  parse_server_config args =
      elim (parse_server_flag args (set_default_server_flag zero_server_flags)) [
        | none ↦ none
        | some cfg ↦ some (parse_server_env cfg)
      ]
