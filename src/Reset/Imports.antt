-- ===== src/Reset/Imports.antt =====
-- The imports that a generated file needs. The types are in the order in which the loop over the map
-- of types visits them.
pub mod Needed
pub mod Qualified
use go_musthave_metrics.Base.{
  Bool, ◌&&◌, ◌||◌, not, Option, none, some, List, [], ◌∷◌, ◌==◌, if◌then◌else◌,
}
use go_musthave_metrics.Base.Text.{
  Text, codes, str_eq, has_prefix, contains, trim_prefix, split_first, split_rest,
}
use go_musthave_metrics.Base.Maps.{GoMap, insert}
use go_musthave_metrics.Reset.Syntax.{ImportInfo}

last_or : Text → List Text → Text
last_or p [] = p
last_or p (q ∷ ps) = last_or q ps

-- The last part of the path.
unfoldable get_package_name : Text → Text
unfolding split_first split_rest last_or
get_package_name import_path = last_or (split_first b'/' import_path) (split_rest b'/' import_path)

-- What follows the first closing bracket.
after_bracket : Text → Option Text
after_bracket [] = none
after_bracket (c ∷ s) = if c == b']' then some s else after_bracket s

-- `*`, `[]` and `map[K]` are cut from the part before the first dot, in this order and once each.
pub base_type : Text → Text
unfolding after_bracket
base_type typ =
    let base = trim_prefix (trim_prefix (split_first b'.' typ) (codes "*")) (codes "[]") in
    if has_prefix base (codes "map[")
    then elim (after_bracket base) [ none ↦ base | some rest ↦ rest ]
    else base

-- `none` for a type that the loop passes over.
pub type_package : Text → Option Text
type_package typ =
    if contains typ (codes ".") && not (has_prefix typ (codes "."))
    then some (base_type typ)
    else none

pub is_import_of : Text → ImportInfo → Bool
is_import_of base imp =
    str_eq (get_package_name imp.path) base || (not (str_eq imp.name []) && str_eq imp.name base)

-- The loop over the imports of the package, for one type.
pub visit_imports : Text → List ImportInfo → GoMap ImportInfo → GoMap ImportInfo
visit_imports base [] needed = needed
visit_imports base (imp ∷ imports) needed =
    visit_imports base imports
      (if is_import_of base imp then insert imp.path imp needed else needed)

-- The loop over the types.
pub visit_types : List Text → List ImportInfo → GoMap ImportInfo → GoMap ImportInfo
visit_types [] imports needed = needed
visit_types (typ ∷ types) imports needed =
    visit_types types imports
      (elim (type_package typ) [ none ↦ needed | some base ↦ visit_imports base imports needed ])

pub collect_needed_imports : List Text → List ImportInfo → GoMap ImportInfo
unfolding visit_types
collect_needed_imports types imports = visit_types types imports []
