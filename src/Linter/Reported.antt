-- ===== src/Linter/Reported.antt =====
-- Which calls the analyzer reports.
use go_musthave_metrics.Base.{
  ℕ, ◌≡◌, refl, Bool, true, false, ◌&&◌, ◌||◌, not, Option, none, some, List, [], ◌∷◌, any, map,
  All, leb, arith, if◌then◌else◌,
}
use go_musthave_metrics.Base.Text.{Text, codes, str_eq, has_prefix}
use go_musthave_metrics.Linter.{
  pkg_name, other_object, Callee, ident, selector, other_callee, CallExpr, Decl, func_decl,
  other_decl, Pass, in_decls, in_files, is_in_main_function, visit, run,
}

-- A function called main whose body holds the position.
abbrev holds : ℕ → Decl → Bool
holds pos (func_decl name (some (l, r))) = str_eq name (codes "main") && leb l pos && leb pos r
holds pos (func_decl name none) = false
holds pos other_decl = false

abbrev in_main : Pass → ℕ → Bool
in_main pass pos = str_eq pass.pkg (codes "main") && any (any (holds pos)) pass.files

-- In a package with the path `log`, a function whose name begins with Fatal of any imported package,
-- and in one with the path `os` a function Exit of any imported package.
abbrev exits : Pass → Callee → Bool
exits pass (selector (some (pkg_name path imported)) name) =
    str_eq pass.path (codes "log") && has_prefix name (codes "Fatal")
    || str_eq pass.path (codes "os") && str_eq name (codes "Exit")
exits pass (selector (some other_object) name) = false
exits pass (selector none name) = false
exits pass (ident name) = false
exits pass other_callee = false

-- What go/types documents of `Pkg` of a package name: it is the package that contains the import.
abbrev IsTyped : Pass → Callee → Type 0
IsTyped pass (selector (some (pkg_name path imported)) name) = path ≡ pass.path
IsTyped pass (selector (some other_object) name) = Unit {0}
IsTyped pass (selector none name) = Unit {0}
IsTyped pass (ident name) = Unit {0}
IsTyped pass other_callee = Unit {0}

abbrev pub AreTyped : Pass → List CallExpr → Type 0
AreTyped pass calls = All (λ c. IsTyped pass c.fun) calls

abbrev panics : Callee → Bool
panics (ident name) = str_eq name (codes "panic")
panics (selector o name) = false
panics other_callee = false

-- The calls that are reported.
abbrev is_forbidden : Pass → CallExpr → Bool
is_forbidden pass c = panics c.fun || exits pass c.fun && not (in_main pass c.pos)

abbrev pub filter_forbidden : Pass → List CallExpr → List ℕ
filter_forbidden pass [] = []
filter_forbidden pass (c ∷ cs) =
    let rest = filter_forbidden pass cs in if is_forbidden pass c then c.pos ∷ rest else rest

in_decls-any : (pos : ℕ) (ds : List Decl) → in_decls pos ds ≡ any (holds pos) ds
unfolding in_decls any
in_decls-any pos [] = refl
in_decls-any pos (other_decl ∷ ds) = in_decls-any pos ds
in_decls-any pos (func_decl name none ∷ ds) = in_decls-any pos ds
in_decls-any pos (func_decl name (some (l, r)) ∷ ds) = ground (arith, in_decls-any pos ds)

in_files-any : (pos : ℕ) (fs : List (List Decl)) → in_files pos fs ≡ any (any (holds pos)) fs
unfolding in_files any
in_files-any pos [] = refl
in_files-any pos (ds ∷ fs) = ground (arith, in_decls-any pos ds, in_files-any pos fs)

is_in_main_function-in_main :
    (pass : Pass) (pos : ℕ) → is_in_main_function pass pos ≡ in_main pass pos
unfolding is_in_main_function
is_in_main_function-in_main pass pos = ground (arith, in_files-any pos pass.files)

abbrev is_some : Option Text → Bool
is_some none = false
is_some (some t) = true

visit-forbidden :
    (pass : Pass) (pos : ℕ) (f : Callee)
    → IsTyped pass f
    → is_some (visit pass pos f) ≡ (panics f || exits pass f && not (in_main pass pos))
unfolding visit
visit-forbidden pass pos (ident name) h = ground arith
visit-forbidden pass pos other_callee h = refl
visit-forbidden pass pos (selector none name) h = refl
visit-forbidden pass pos (selector (some other_object) name) h = refl
visit-forbidden pass pos (selector (some (pkg_name path imported)) name) h =
    ground (arith, h, is_in_main_function-in_main pass pos)

-- As go/types documents `Pkg`, the analyzer reports, in their order, exactly the calls of panic,
-- and in a package whose own path is `log` or `os` the calls of Fatal* or of Exit, of whatever
-- imported package, that do not stand in the body of a function called main of a package called
-- main.
pub run-forbidden :
    (pass : Pass) (calls : List CallExpr)
    → AreTyped pass calls
    → map (λ r. r.0) (run pass calls) ≡ filter_forbidden pass calls
unfolding run
run-forbidden pass [] h = refl
run-forbidden pass (c ∷ cs) h =
    ground (arith, run-forbidden pass cs h.1, visit-forbidden pass c.pos c.fun h.0)

abbrev pub panic_calls : List CallExpr → List ℕ
panic_calls [] = []
panic_calls (c ∷ cs) = let rest = panic_calls cs in if panics c.fun then c.pos ∷ rest else rest
