-- ===== src/Reset/Imports/Needed.antt =====
-- Which paths are imported.
use go_musthave_metrics.Base.{
  ◌≡◌, inl, inr, Option-cases, Bool, true, false, ◌&&◌, ◌||◌, none, some, List, [], ◌∷◌, any, arith,
}
use go_musthave_metrics.Base.Text.{Text, str_eq}
use go_musthave_metrics.Base.Maps.{GoMap, lookup, insert, lookup-insert}
use go_musthave_metrics.Reset.Syntax.{ImportInfo}
use go_musthave_metrics.Reset.Imports.{
  type_package, is_import_of, visit_imports, visit_types, collect_needed_imports,
}

abbrev pub is_listed : Text → GoMap ImportInfo → Bool
is_listed p m = elim (lookup p m) [ none ↦ false | some imp ↦ true ]

-- The type names an import with that path.
abbrev pub needs : Text → List ImportInfo → Text → Bool
needs p imports typ = elim (type_package typ) [
  | none ↦ false
  | some base ↦ any (λ imp. str_eq imp.path p && is_import_of base imp) imports
]

visit_imports-is_listed :
    (p base : Text) (imports : List ImportInfo) (m : GoMap ImportInfo)
    → is_listed p (visit_imports base imports m)
      ≡ (is_listed p m || any (λ imp. str_eq imp.path p && is_import_of base imp) imports)
unfolding visit_imports any
visit_imports-is_listed p base [] m = ground arith
visit_imports-is_listed p base (imp ∷ imports) m = ground (
  arith,
  visit_imports-is_listed p base imports m,
  visit_imports-is_listed p base imports (insert imp.path imp m),
  lookup-insert imp.path p imp m,
)

visit_types-is_listed :
    (p : Text) (types : List Text) (imports : List ImportInfo) (m : GoMap ImportInfo)
    → is_listed p (visit_types types imports m) ≡ (is_listed p m || any (needs p imports) types)
unfolding visit_types any
visit_types-is_listed p [] imports m = ground arith
visit_types-is_listed p (typ ∷ types) imports m = elim (Option-cases (type_package typ)) [
  | inl e ↦ rw (e, needs) (visit_types-is_listed p types imports m)
  | inr (base, e) ↦ ground (
    arith,
    e,
    visit_types-is_listed p types imports (visit_imports base imports m),
    visit_imports-is_listed p base imports m,
  )
]

pub listed :
    (p : Text) (types : List Text) (imports : List ImportInfo)
    → is_listed p (collect_needed_imports types imports) ≡ any (needs p imports) types
unfolding collect_needed_imports lookup
listed p types imports = visit_types-is_listed p types imports []
