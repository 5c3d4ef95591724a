-- ===== src/Linter.antt =====
-- cmd/linter/analyzer.go: the calls that the analyzer reports. go/ast and go/types are read as far as
-- the analyzer looks at them.
pub mod Reported
use go_musthave_metrics.Base.{
  ℕ, Bool, true, false, ◌&&◌, not, Option, none, some, List, [], ◌∷◌, ◌++◌, leb, if◌then◌else◌,
}
use go_musthave_metrics.Base.Text.{Text, codes, str_eq, has_prefix}

-- A types.Object: the name of an imported package, with the path of the package that contains the
-- import, which is what `Pkg()` gives, and the path of the imported one; or anything else.
pub data Object : Type 0 where
  pkg_name : Text → Text → Object
  other_object : Object

-- The function of a call: an identifier, a selector on an identifier, with what `TypesInfo.Uses` has
-- for that identifier, or anything else.
pub data Callee : Type 0 where
  ident : Text → Callee
  selector : Option Object → Text → Callee
  other_callee : Callee

pub record CallExpr : Type 0 where
  pub fun : Callee
  pub pos : ℕ

-- The braces of a body; `none` is a nil body.
pub data Decl : Type 0 where
  func_decl : Text → Option (ℕ × ℕ) → Decl
  other_decl : Decl

-- The path and the name of the package, and the declarations of each file.
pub record Pass : Type 0 where
  pub path : Text
  pub pkg : Text
  pub files : List (List Decl)

in_decls : ℕ → List Decl → Bool
in_decls pos [] = false
in_decls pos (other_decl ∷ decls) = in_decls pos decls
in_decls pos (func_decl name none ∷ decls) = in_decls pos decls
in_decls pos (func_decl name (some (lbrace, rbrace)) ∷ decls) =
    let rest = in_decls pos decls in
    if str_eq name (codes "main") && leb lbrace pos && leb pos rbrace then true else rest

in_files : ℕ → List (List Decl) → Bool
unfolding in_decls
in_files pos [] = false
in_files pos (decls ∷ files) =
    let rest = in_files pos files in if in_decls pos decls then true else rest

is_in_main_function : Pass → ℕ → Bool
unfolding in_files
is_in_main_function pass pos =
    if not (str_eq pass.pkg (codes "main")) then false else in_files pos pass.files

panic_message : Text
panic_message = codes "panic() should not be used in production code called from panic"

fatal_message : Text → Text
fatal_message func_name =
    codes "log."
    ++ (func_name ++ codes "() should only be called from main function in main package")

exit_message : Text
exit_message =
    codes "os.Exit() should only be called from main function in main package called from os.Exit"

-- What the visit of a call at that position reports.
visit : Pass → ℕ → Callee → Option Text
unfolding is_in_main_function panic_message fatal_message exit_message has_prefix
visit pass pos (ident name) = if str_eq name (codes "panic") then some panic_message else none
visit pass pos other_callee = none
visit pass pos (selector none func_name) = none
visit pass pos (selector (some other_object) func_name) = none
visit pass pos (selector (some (pkg_name path imported)) func_name) =
    if str_eq path (codes "log") && has_prefix func_name (codes "Fatal")
    then if not (is_in_main_function pass pos) then some (fatal_message func_name) else none
    else if str_eq path (codes "os") && str_eq func_name (codes "Exit")
    then if not (is_in_main_function pass pos) then some exit_message else none
    else none

-- `run` on the calls in preorder.
pub run : Pass → List CallExpr → List (ℕ × Text)
unfolding visit
run pass [] = []
run pass (c ∷ calls) =
    let rest = run pass calls in
    elim (visit pass c.pos c.fun) [ none ↦ rest | some message ↦ (c.pos, message) ∷ rest ]
