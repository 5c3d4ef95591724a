-- ===== src/Config.antt =====
-- internal/config: the settings of the server and of the agent.
pub mod Sources
pub mod Agent
pub mod Server
use go_musthave_metrics.Base.{Bool, false, List, [], ◌∷◌, ◌++◌}
use go_musthave_metrics.Base.Text.{Text, codes}
use go_musthave_metrics.Base.Results.{Result, ok, err}
use go_musthave_metrics.Base.Ints.{ℤ, pos}

pub record ServerFlags : Type 0 where
  pub server_addr : Text
  pub log_level : Text
  pub store_interval : ℤ
  pub file_storage_path : Text
  pub restore : Bool
  pub database_dsn : Text
  pub secret_ket : Text
  pub rate_limit : ℤ
  pub max_retries : ℤ
  pub retry_delays : List Text
  pub audit_file : Text
  pub audit_url : Text

pub record AgentFlags : Type 0 where
  pub server_addr : Text
  pub report_interval : ℤ
  pub polling_interval : ℤ
  pub log_level : Text
  pub secret_key : Text
  pub rate_limit : ℤ
  pub max_retries : ℤ
  pub retry_delays : List Text

abbrev pub default_delays : List Text
default_delays = codes "1s" ∷ codes "3s" ∷ codes "5s" ∷ []

pub set_default_agent_flag : AgentFlags → AgentFlags
set_default_agent_flag cfg = record cfg {
  server_addr = codes "http://localhost:8080";
  report_interval = pos 10;
  polling_interval = pos 2;
  max_retries = pos 3;
  retry_delays = default_delays;
}

pub set_default_server_flag : ServerFlags → ServerFlags
set_default_server_flag cfg = record cfg {
  server_addr = codes "http://localhost:8080";
  log_level = codes "info";
  store_interval = pos 300;
  file_storage_path = codes "metrics.json";
  restore = false;
  max_retries = pos 3;
  retry_delays = default_delays;
}

-- `GetRetryDelaysAsDuration` of both files; `parse_duration` is time.ParseDuration.
module _ {Duration : Type 0} (parse_duration : Text → Result Duration) where
  unfoldable pub get_retry_delays_as_duration : List Text → Result (List Duration)
  get_retry_delays_as_duration [] = ok []
  get_retry_delays_as_duration (delay_str ∷ retry_delays) = elim (parse_duration delay_str) [
    | err e ↦ err (codes "invalid duration format '" ++ (delay_str ++ (codes "': " ++ e)))
    | ok delay ↦ elim (get_retry_delays_as_duration retry_delays) [
      | err e ↦ err e
      | ok delays ↦ ok (delay ∷ delays)
    ]
  ]
