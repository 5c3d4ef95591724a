-- ===== src/Reset/Template/Joined.antt =====
-- Two imports in one generated file.
use mathlib.Core.List.{append_assoc}
use go_musthave_metrics.Base.{◌≡◌, List, ◌∷◌, ◌++◌}
use go_musthave_metrics.Base.Text.{Text, codes}
use go_musthave_metrics.Reset.Syntax.{ImportInfo}
use go_musthave_metrics.Reset.Template.{
  TmplData, alias, quoted, preamble, methods, import_specs, reset_template,
}

-- In a file with two imports or more, the first path is followed by the second import with nothing
-- between them, neither a line break nor a semicolon.
pub imports_joined :
    (d : TmplData) (a b : ImportInfo) (rest : List ImportInfo)
    → d.imports ≡ a ∷ b ∷ rest
    → (before after : Text) × (reset_template d
        ≡ before ++ (quoted a.path ++ (alias b ++ (quoted b.path ++ after))))
unfolding reset_template import_specs
imports_joined d a b rest e = (
  preamble ++ (d.package_name ++ (codes "\nimport (" ++ alias a)),
  import_specs rest ++ (codes "\n)" ++ (methods d.structs ++ codes "\n")),
  rw (e, reset_template) (simp append_assoc),
)
