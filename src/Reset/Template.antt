-- ===== src/Reset/Template.antt =====
-- The template of template.go, as package text/template prints it: a `{{-` cuts all blanks before it.
pub mod Joined
use go_musthave_metrics.Base.{List, [], ◌∷◌, ◌++◌, if◌then◌else◌}
use go_musthave_metrics.Base.Text.{Text, codes, str_eq}
use go_musthave_metrics.Reset.Syntax.{ImportInfo}

pub record TmplStruct : Type 0 where
  pub name : Text
  pub body : Text

pub record TmplData : Type 0 where
  pub package_name : Text
  pub imports : List ImportInfo
  pub structs : List TmplStruct

abbrev pub alias : ImportInfo → Text
alias imp = if str_eq imp.name [] then [] else imp.name ++ codes " "

abbrev pub quoted : Text → Text
quoted path = codes "\"" ++ (path ++ codes "\"")

pub import_specs : List ImportInfo → Text
import_specs [] = []
import_specs (imp ∷ imports) = alias imp ++ (quoted imp.path ++ import_specs imports)

unfoldable import_group : List ImportInfo → Text
import_group [] = []
import_group (imp ∷ imports) = codes "\nimport (" ++ (import_specs (imp ∷ imports) ++ codes "\n)")

pub methods : List TmplStruct → Text
methods [] = []
methods (s ∷ structs) =
    codes "\nfunc (x *"
    ++ (s.name ++ (codes ") Reset() {\n" ++ (s.body ++ (codes "\n}" ++ methods structs))))

abbrev pub preamble : Text
preamble =
    codes
      "// Code generated by reset generator. DO NOT EDIT.\n//go:generate go run ./cmd/reset/main.go\n\npackage "

pub reset_template : TmplData → Text
unfolding import_group methods
reset_template d =
    preamble ++ (d.package_name ++ (import_group d.imports ++ (methods d.structs ++ codes "\n")))
