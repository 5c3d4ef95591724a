-- ===== src/Config/Agent/Overlay.antt =====
-- Where each setting of the agent comes from.
use go_musthave_metrics.Base.{some, ◌≡◌, refl, Option, none, List, [], ◌∷◌, ◌++◌, All, arith}
use go_musthave_metrics.Base.Text.{Text, codes}
use go_musthave_metrics.Base.Results.{Error, ok}
use go_musthave_metrics.Base.Ints.{pos}
use go_musthave_metrics.Config.{AgentFlags, default_delays, set_default_agent_flag}
use go_musthave_metrics.Config.Sources.{
  Pflag, Variables, parsed, Bound, Tag, Environment, Overlaid, FromText, Chosen, FromInt, FromTexts,
}
use go_musthave_metrics.Config.Agent.{
  zero_agent_flags, agent_tags, agent_flags, bind_agent_flags, check_arguments, returned,
  parse_flags_agent, parse_agent_config,
}

checked :
    {stderr : Text → Option Error}
    → ((t : Text) → stderr t ≡ none)
    → (args : List Text) → check_arguments stderr args ≡ none
unfolding check_arguments
checked writes [] = refl
checked writes ([] ∷ args) = checked writes args
checked writes ((c ∷ arg) ∷ args) = ground (
  arith,
  writes (codes "Error: unknown flag: " ++ ((c ∷ arg) ++ codes "\n")),
  checked writes args,
)

-- When the flags are parsed, the standard error can be written, and the environment is parsed
-- without an error, the agent starts with, for each setting, its variable if that is set and not empty,
-- else what its flag gives, else the default that the flag declares; the log level, which has no
-- flag, is its variable, or `info` where that is not set.
pub parse_agent_config-from :
    (pflag : Pflag) (env : Environment)
    (env_parse : List (Tag AgentFlags) → AgentFlags → Option Error × AgentFlags)
    (stderr : Text → Option Error) (args : List Text) (vars : Variables)
    → pflag.parse agent_flags args ≡ parsed none vars
    → All (Bound pflag args vars) agent_flags
    → ((t : Text) → stderr t ≡ none)
    → (env_parse agent_tags (bind_agent_flags (set_default_agent_flag zero_agent_flags) vars)).0
      ≡ none
    → ((old : AgentFlags)
        → (env_parse agent_tags old).0 ≡ none
        → All (Overlaid env old (env_parse agent_tags old).1) agent_tags)
    → (cfg : AgentFlags) × (parse_agent_config pflag env_parse stderr args ≡ returned (ok cfg))
      × FromText env
          (pflag.given_string args (codes "a"))
          (codes "http://localhost:8080")
          (codes "ADDRESS")
          cfg.server_addr
      × FromInt env
          (pflag.given_int args (codes "r"))
          (pos 10)
          (codes "REPORT_INTERVAL")
          cfg.report_interval
      × FromInt env
          (pflag.given_int args (codes "p"))
          (pos 2)
          (codes "POLL_INTERVAL")
          cfg.polling_interval
      × Chosen some [] (codes "info") (env.variable (codes "LOGLEVEL")) cfg.log_level
      × FromText env (pflag.given_string args (codes "k")) [] (codes "KEY") cfg.secret_key
      × FromInt env (pflag.given_int args (codes "l")) (pos 0) (codes "RATE_LIMIT") cfg.rate_limit
      × FromInt env (pflag.given_int args (codes "m")) (pos 3) (codes "MAX_RETRIES") cfg.max_retries
      × FromTexts env
          (pflag.given_string_array args (codes "d"))
          default_delays
          (codes "RETRY_DELAYS")
          cfg.retry_delays
unfolding parse_agent_config parse_flags_agent set_default_agent_flag
parse_agent_config-from pflag env env_parse stderr args vars run bound writes fine law =
    let flagged : AgentFlags = bind_agent_flags (set_default_agent_flag zero_agent_flags) vars in
    let (a, (r, (p, (v, (k, (l, (m, (d, _)))))))) = law flagged fine in
    let (ba, (br, (bp, (bk, (bl, (bm, (bd, _))))))) = bound in
    (
      (env_parse agent_tags flagged).1,
      rw (run, checked writes vars.arguments, parse_agent_config) refl,
      rw (← ba) a,
      rw (← br) r,
      rw (← bp) p,
      v,
      rw (← bk) k,
      rw (← bl) l,
      rw (← bm) m,
      rw (← bd) d,
    )
