-- ===== src/Config/Sources.antt =====
-- How internal/config uses its two libraries: pflag, which binds variables to flags, and
-- caarlos0/env, which overwrites the fields of a struct by their tags. Both are parameters.
use go_musthave_metrics.Base.{◌≡◌, Bool, Option, none, some, List, [], ◌∷◌}
use go_musthave_metrics.Base.Text.{Text}
use go_musthave_metrics.Base.Results.{Error}
use go_musthave_metrics.Base.Ints.{ℤ}

-- `StringVarP`, `IntVarP`, `BoolVarP` and `StringArrayVarP`: name, shorthand and default.
pub data Flag : Type 0 where
  string_var_p : Text → Text → Text → Flag
  int_var_p : Text → Text → ℤ → Flag
  bool_var_p : Text → Text → Bool → Flag
  string_array_var_p : Text → Text → List Text → Flag

-- What the variables bound to the flags hold after the parse, by the shorthand, and the arguments
-- that are no flags.
pub record Variables : Type 0 where
  pub string : Text → Text
  pub int : Text → ℤ
  pub bool : Text → Bool
  pub string_array : Text → List Text
  pub arguments : List Text

-- Under `ExitOnError` a parse that fails ends the program.
pub data Outcome : Type 0 where
  exits : Outcome
  parsed : Option Error → Variables → Outcome

-- `FlagSet.Parse`, and what a command line gives to the flag of a shorthand.
pub record Pflag : Type 0 where
  pub parse : List Flag → List Text → Outcome
  pub given_string : List Text → Text → Option Text
  pub given_int : List Text → Text → Option ℤ
  pub given_bool : List Text → Text → Option Bool
  pub given_string_array : List Text → Text → Option (List Text)

abbrev pub or_else {ℓ} : {A : Type ℓ} → Option A → A → A
or_else none d = d
or_else (some v) d = v

-- A variable holds what the command line gives, or the default of its flag.
abbrev pub Bound : Pflag → List Text → Variables → Flag → Type 0
Bound pflag args vars (string_var_p n s d) = vars.string s ≡ or_else (pflag.given_string args s) d
Bound pflag args vars (int_var_p n s d) = vars.int s ≡ or_else (pflag.given_int args s) d
Bound pflag args vars (bool_var_p n s d) = vars.bool s ≡ or_else (pflag.given_bool args s) d
Bound pflag args vars (string_array_var_p n s d) =
    vars.string_array s ≡ or_else (pflag.given_string_array args s) d

-- A field of a struct, as reflection reaches it.
pub record Field (S A : Type 0) : Type 0 where
  pub get : S → A
  pub set : S → A → S

-- The tag of a field: its variable, and `envDefault` where there is one.
pub data Tag (S : Type 0) : Type 0 where
  text_tag : Text → Option Text → Field S Text → Tag S
  int_tag : Text → Field S ℤ → Tag S
  bool_tag : Text → Field S Bool → Tag S
  texts_tag : Text → Field S (List Text) → Tag S

-- The environment, and how the library reads the other types; `none` is a text that it refuses.
pub record Environment : Type 0 where
  pub variable : Text → Option Text
  pub read_int : Text → Option ℤ
  pub read_bool : Text → Option Bool
  pub read_texts : Text → Option (List Text)

-- After a parse without an error a field holds its variable, read as its type; if the variable is
-- not set, the default of its tag, or what it held before; if it is set to the empty text, what it
-- held before.
abbrev pub Chosen : {A : Type 0} → (Text → Option A) → A → A → Option Text → A → Type 0
Chosen read kept unset none v = v ≡ unset
Chosen read kept unset (some []) v = v ≡ kept
Chosen read kept unset (some (c ∷ t)) v = read (c ∷ t) ≡ some v

abbrev pub Overlaid : {S : Type 0} → Environment → S → S → Tag S → Type 0
Overlaid env old new (text_tag key default f) =
    Chosen some (f.get old) (or_else default (f.get old)) (env.variable key) (f.get new)
Overlaid env old new (int_tag key f) =
    Chosen env.read_int (f.get old) (f.get old) (env.variable key) (f.get new)
Overlaid env old new (bool_tag key f) =
    Chosen env.read_bool (f.get old) (f.get old) (env.variable key) (f.get new)
Overlaid env old new (texts_tag key f) =
    Chosen env.read_texts (f.get old) (f.get old) (env.variable key) (f.get new)

-- A field: its variable if that is not empty, or else its flag, or else a default.
abbrev pub FromText : Environment → Option Text → Text → Text → Text → Type 0
FromText env flag default key v =
    Chosen some (or_else flag default) (or_else flag default) (env.variable key) v

abbrev pub FromInt : Environment → Option ℤ → ℤ → Text → ℤ → Type 0
FromInt env flag default key v =
    Chosen env.read_int (or_else flag default) (or_else flag default) (env.variable key) v

abbrev pub FromTexts : Environment → Option (List Text) → List Text → Text → List Text → Type 0
FromTexts env flag default key v =
    Chosen env.read_texts (or_else flag default) (or_else flag default) (env.variable key) v

abbrev pub FromBool : Environment → Option Bool → Bool → Text → Bool → Type 0
FromBool env flag default key v =
    Chosen env.read_bool (or_else flag default) (or_else flag default) (env.variable key) v
