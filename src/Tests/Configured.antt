-- ===== src/Tests/Configured.antt =====
-- The configuration over a small command line and a small environment.
use go_musthave_metrics.Base.{
  ◌≡◌, refl, false, Option, none, some, List, [], ◌∷◌, ◌++◌, if◌then◌else◌,
}
use go_musthave_metrics.Base.Text.{Text, codes, str_eq}
use go_musthave_metrics.Base.Results.{Error, ok}
use go_musthave_metrics.Base.Ints.{ℤ, pos}
use go_musthave_metrics.Config.{AgentFlags, ServerFlags, default_delays}
use go_musthave_metrics.Config.Sources.{
  Flag, string_var_p, int_var_p, bool_var_p, string_array_var_p, Pflag, Variables, parsed, or_else,
  Tag, text_tag, int_tag, bool_tag, texts_tag, Environment, FromText, FromInt, FromTexts, Chosen,
}
use go_musthave_metrics.Config.Agent.{agent_flags, returned, parse_agent_config}
use go_musthave_metrics.Config.Agent.Overlay.{parse_agent_config-from}
use go_musthave_metrics.Config.Server.{server_flags, parse_server_config}
use go_musthave_metrics.Config.Server.Overlay.{FromSources, parse_server_config-from}

-- A command line of `-a value` pairs; only texts can be given.
abbrev given : List Text → Text → Option Text
given [] s = none
given (f ∷ []) s = none
given (f ∷ v ∷ args) s = if str_eq f (codes "-" ++ s) then some v else given args s

abbrev default_string : List Flag → Text → Text
default_string [] s = []
default_string (string_var_p n t d ∷ fs) s = if str_eq t s then d else default_string fs s
default_string (int_var_p n t d ∷ fs) s = default_string fs s
default_string (bool_var_p n t d ∷ fs) s = default_string fs s
default_string (string_array_var_p n t d ∷ fs) s = default_string fs s

abbrev default_int : List Flag → Text → ℤ
default_int [] s = pos 0
default_int (string_var_p n t d ∷ fs) s = default_int fs s
default_int (int_var_p n t d ∷ fs) s = if str_eq t s then d else default_int fs s
default_int (bool_var_p n t d ∷ fs) s = default_int fs s
default_int (string_array_var_p n t d ∷ fs) s = default_int fs s

abbrev variables : List Flag → List Text → Variables
variables fs args = record {
  string = λ s. or_else (given args s) (default_string fs s);
  int = default_int fs;
  bool = λ s. false;
  string_array = λ s. default_delays;
  arguments = [];
}

abbrev pairs : Pflag
pairs = record {
  parse = λ fs args. parsed none (variables fs args);
  given_string = given;
  given_int = λ args s. none;
  given_bool = λ args s. none;
  given_string_array = λ args s. none;
}

-- Only `ADDRESS` is set.
abbrev small_environment : Environment
small_environment = record {
  variable = λ key. if str_eq key (codes "ADDRESS") then some (codes ":9090") else none;
  read_int = λ t. none;
  read_bool = λ t. none;
  read_texts = λ t. none;
}

abbrev apply_tags : {S : Type 0} → List (Tag S) → S → S
apply_tags [] s = s
apply_tags (text_tag key default f ∷ tags) s =
    let s' = apply_tags tags s in
    elim (small_environment.variable key) [
      | some v ↦ f.set s' v
      | none ↦ f.set s' (or_else default (f.get s'))
    ]
apply_tags (int_tag key f ∷ tags) s = apply_tags tags s
apply_tags (bool_tag key f ∷ tags) s = apply_tags tags s
apply_tags (texts_tag key f ∷ tags) s = apply_tags tags s

abbrev parse_env : {S : Type 0} → List (Tag S) → S → Option Error × S
parse_env tags s = (none, apply_tags tags s)

abbrev with_level : List Text
with_level = codes "-g" ∷ codes "debug" ∷ codes "-k" ∷ codes "secret" ∷ []

parse_server_config-from_example :
    (cfg : ServerFlags) × (parse_server_config pairs parse_env with_level ≡ some cfg)
    × FromSources pairs small_environment with_level cfg
unfolding str_eq
parse_server_config-from_example =
    parse_server_config-from pairs small_environment parse_env with_level none
      (variables server_flags with_level) refl
      (
        refl,
        (refl, (refl, (refl, (refl, (refl, (refl, (refl, (refl, (refl, (refl, (refl, tt))))))))))),
      )
      refl
      (λ old h. (
        refl,
        (refl, (refl, (refl, (refl, (refl, (refl, (refl, (refl, (refl, (refl, (refl, tt))))))))))),
      ))

parse_agent_config-from_example :
    (cfg : AgentFlags) × (parse_agent_config pairs parse_env (λ t. none) with_level
      ≡ returned (ok cfg))
    × FromText small_environment none
        (codes "http://localhost:8080")
        (codes "ADDRESS")
        cfg.server_addr
    × FromInt small_environment none (pos 10) (codes "REPORT_INTERVAL") cfg.report_interval
    × FromInt small_environment none (pos 2) (codes "POLL_INTERVAL") cfg.polling_interval
    × Chosen some [] (codes "info") none cfg.log_level
    × FromText small_environment (some (codes "secret")) [] (codes "KEY") cfg.secret_key
    × FromInt small_environment none (pos 0) (codes "RATE_LIMIT") cfg.rate_limit
    × FromInt small_environment none (pos 3) (codes "MAX_RETRIES") cfg.max_retries
    × FromTexts small_environment none default_delays (codes "RETRY_DELAYS") cfg.retry_delays
unfolding str_eq
parse_agent_config-from_example =
    parse_agent_config-from pairs small_environment parse_env (λ t. none) with_level
      (variables agent_flags with_level) refl
      (refl, (refl, (refl, (refl, (refl, (refl, (refl, tt))))))) (λ t. refl) refl
      (λ old h. (refl, (refl, (refl, (refl, (refl, (refl, (refl, (refl, tt)))))))))
