-- ===== src/Config/Agent.antt =====
-- `ParseAgentConfig` of internal/config/agent.go. `pflag` and `env_parse` are the two libraries, and
-- `stderr` is what a write to the standard error returns.
pub mod Overlay
use go_musthave_metrics.Base.{Option, none, some, List, [], ◌∷◌, ◌++◌, false, ◌==◌, if◌then◌else◌}
use go_musthave_metrics.Base.Text.{Text, codes}
use go_musthave_metrics.Base.Results.{Error, Result, ok, err}
use go_musthave_metrics.Base.Ints.{pos}
use go_musthave_metrics.Config.{AgentFlags, default_delays, set_default_agent_flag}
use go_musthave_metrics.Config.Sources.{
  Flag, string_var_p, int_var_p, string_array_var_p, Variables, Outcome, exits, parsed, Pflag, Tag,
  text_tag, int_tag, texts_tag,
}

-- What `var cfg AgentFlags` holds.
abbrev pub zero_agent_flags : AgentFlags
zero_agent_flags = record {
  server_addr = [];
  report_interval = pos 0;
  polling_interval = pos 0;
  log_level = [];
  secret_key = [];
  rate_limit = pos 0;
  max_retries = pos 0;
  retry_delays = [];
}

-- The tags of the struct.
abbrev pub agent_tags : List (Tag AgentFlags)
agent_tags =
    text_tag (codes "ADDRESS") none
      (record { get = λ c. c.server_addr; set = λ c v. record c { server_addr = v } })
    ∷ int_tag (codes "REPORT_INTERVAL")
        (record { get = λ c. c.report_interval; set = λ c v. record c { report_interval = v } })
    ∷ int_tag (codes "POLL_INTERVAL")
        (record { get = λ c. c.polling_interval; set = λ c v. record c { polling_interval = v } })
    ∷ text_tag (codes "LOGLEVEL") (some (codes "info"))
        (record { get = λ c. c.log_level; set = λ c v. record c { log_level = v } })
    ∷ text_tag (codes "KEY") none
        (record { get = λ c. c.secret_key; set = λ c v. record c { secret_key = v } })
    ∷ int_tag (codes "RATE_LIMIT")
        (record { get = λ c. c.rate_limit; set = λ c v. record c { rate_limit = v } })
    ∷ int_tag (codes "MAX_RETRIES")
        (record { get = λ c. c.max_retries; set = λ c v. record c { max_retries = v } })
    ∷ texts_tag (codes "RETRY_DELAYS")
        (record { get = λ c. c.retry_delays; set = λ c v. record c { retry_delays = v } })
    ∷ []

abbrev pub agent_flags : List Flag
agent_flags =
    string_var_p (codes "address") (codes "a") (codes "http://localhost:8080")
    ∷ int_var_p (codes "report") (codes "r") (pos 10)
    ∷ int_var_p (codes "poll") (codes "p") (pos 2)
    ∷ string_var_p [] (codes "k") []
    ∷ int_var_p (codes "ratelimit") (codes "l") (pos 0)
    ∷ int_var_p (codes "max-retries") (codes "m") (pos 3)
    ∷ string_array_var_p (codes "retry-delays") (codes "d") default_delays
    ∷ []

-- The variables that the flags are bound to are the fields of the struct.
abbrev pub bind_agent_flags : AgentFlags → Variables → AgentFlags
bind_agent_flags cfg vars = record cfg {
  server_addr = vars.string (codes "a");
  report_interval = vars.int (codes "r");
  polling_interval = vars.int (codes "p");
  secret_key = vars.string (codes "k");
  rate_limit = vars.int (codes "l");
  max_retries = vars.int (codes "m");
  retry_delays = vars.string_array (codes "d");
}

-- A run that may end the program.
pub data Parsing (A : Type 0) : Type 0 where
  exited : Parsing A
  returned : A → Parsing A

-- The loop over the arguments that are no flags: `some` is the error of a write that failed.
check_arguments : (Text → Option Error) → List Text → Option Error
check_arguments stderr [] = none
check_arguments stderr ([] ∷ args) = check_arguments stderr args
check_arguments stderr ((c ∷ arg) ∷ args) =
    let rest = check_arguments stderr args in
    if c == b'-'
    then elim (stderr (codes "Error: unknown flag: " ++ ((c ∷ arg) ++ codes "\n"))) [
      | some e ↦ some (codes "failed to parse flags: " ++ e)
      | none ↦ rest
    ]
    else rest

module _ (pflag : Pflag)
    (env_parse : List (Tag AgentFlags) → AgentFlags → Option Error × AgentFlags)
    (stderr : Text → Option Error) where
  -- After the error is printed, the message wraps the nil of that write in its place.
  parse_flags_agent : List Text → AgentFlags → Parsing (Option Error × AgentFlags)
  unfolding check_arguments
  parse_flags_agent args cfg = elim (pflag.parse agent_flags args) [
    | exits ↦ exited
    | parsed (some e) vars ↦ returned (
      elim (stderr (codes "Error: " ++ (e ++ codes "\n"))) [
        | some x ↦ some (codes "failed to parse flags: " ++ x)
        | none ↦ some (codes "failed to parse flags: %!w(<nil>)")
      ],
      bind_agent_flags cfg vars,
    )
    | parsed none vars ↦ returned (check_arguments stderr vars.arguments, bind_agent_flags cfg vars)
  ]

  -- An error is printed, and what was set before it stays.
  abbrev parse_env_agent : AgentFlags → AgentFlags
  parse_env_agent cfg = (env_parse agent_tags cfg).1

  pub parse_agent_config : List Text → Parsing (Result AgentFlags)
  unfolding parse_flags_agent set_default_agent_flag
  parse_agent_config args =
      elim (parse_flags_agent args (set_default_agent_flag zero_agent_flags)) [
        | exited ↦ exited
        | returned (some e, cfg) ↦ returned (err (codes "failed to parse flags: " ++ e))
        | returned (none, cfg) ↦ returned (ok (parse_env_agent cfg))
      ]
