-- ===== src/Tests/Generator.antt =====
-- The generator of Reset methods and the analyzer, on small packages.
use mathlib.Core.List.{append_cancel_right}
use go_musthave_metrics.Base.{
  any, ℕ, ◌≡◌, refl, false, Option, none, some, List, [], ◌∷◌, ◌++◌, map, any, arith,
}
use go_musthave_metrics.Base.Text.{
  Text, codes, contains, has_prefix, trim_prefix, str_eq, str_eq_refl, str_eq_iff,
}
use go_musthave_metrics.Base.Results.{Error, Result, ok}
use go_musthave_metrics.Reset.Syntax.{
  Expr, ident, star, array_type, expr_to_string, StructInfo, ImportInfo, PackageInfo,
}
use go_musthave_metrics.Reset.Fields.{generate_field_reset}
use go_musthave_metrics.Reset.Fields.Kinds.{reset_of, generate_field_reset-reset_of}
use go_musthave_metrics.Reset.Imports.{collect_needed_imports}
use go_musthave_metrics.Reset.Imports.Needed.{is_listed}
use go_musthave_metrics.Reset.Imports.Qualified.{
  Qualified, slice, type_text, imported_as, collect_needed_imports-imported_as,
}
use go_musthave_metrics.Reset.Template.{TmplData, alias, quoted, reset_template}
use go_musthave_metrics.Reset.Template.Joined.{imports_joined}
use go_musthave_metrics.Base.Maps.{GoMap, lookup, insert, Ranges-self}
use go_musthave_metrics.Reset.Files.{
  AstFile, gen_decl, struct_spec, template_data, process_file, add_file, package_dir, decl_structs,
  spec_structs, fields_of, has_reset_comment,
}
use go_musthave_metrics.Reset.Files.Marked.{all_marked}
use go_musthave_metrics.Reset.Walk.{
  Node, file, dir, nil, entry, scan, main, walk, visit, is_skipped, is_source, has_suffix,
}
use go_musthave_metrics.Reset.Walk.Written.{Writing, main-written}
use go_musthave_metrics.Reset.Walk.Scanned.{files, analyzed, IsReadable}
use go_musthave_metrics.Linter.{CallExpr, Pass, ident, selector, pkg_name, func_decl, run}
use go_musthave_metrics.Linter.Reported.{filter_forbidden, run-forbidden}

abbrev pool : StructInfo
pool = record { name = codes "Pool"; fields = [] }

abbrev int_slice_pointer : Expr
int_slice_pointer = star (array_type false (Expr.ident (codes "int")))

generate_field_reset-reset_of_example :
    generate_field_reset
      (record { name = codes "sizes"; typ = expr_to_string int_slice_pointer; tag = [] })
      (pool ∷ [])
    ≡ reset_of (pool ∷ []) (codes "x.sizes") int_slice_pointer
unfolding expr_to_string contains has_prefix
generate_field_reset-reset_of_example =
    generate_field_reset-reset_of (pool ∷ []) (codes "sizes") [] int_slice_pointer
      ((refl, refl), tt) tt refl

abbrev sync_import : ImportInfo
sync_import = record { name = []; path = codes "sync" }

abbrev zap_import : ImportInfo
zap_import = record { name = []; path = codes "go.uber.org/zap" }

abbrev field_types : List Text
field_types = codes "*zap.Logger" ∷ codes "int" ∷ []

-- `[]zap.Field`
abbrev log_fields : Qualified
log_fields = record { form = slice; qualifier = codes "zap"; name = codes "Field" }

collect_needed_imports-imported_as_example :
    is_listed
      (codes "go.uber.org/zap")
      (collect_needed_imports (type_text log_fields ∷ []) (sync_import ∷ zap_import ∷ []))
    ≡ any (imported_as (codes "go.uber.org/zap") (sync_import ∷ zap_import ∷ [])) (log_fields ∷ [])
collect_needed_imports-imported_as_example =
    collect_needed_imports-imported_as (codes "go.uber.org/zap") (log_fields ∷ [])
      (sync_import ∷ zap_import ∷ []) (((λ h. cc), omega arith, tt), tt)

abbrev two_imports : TmplData
two_imports = record {
  package_name = codes "agent";
  imports = sync_import ∷ zap_import ∷ [];
  structs = [];
}

imports_joined_example :
    (before after : Text) × (reset_template two_imports
      ≡ before
        ++ (quoted (codes "sync")
            ++ (alias zap_import ++ (quoted (codes "go.uber.org/zap") ++ after))))
imports_joined_example = imports_joined two_imports sync_import zap_import [] refl

-- Every file declares the same marked struct.
abbrev parse_file : Text → Result AstFile
parse_file path = ok (record {
  package_name = codes "agent";
  imports = [];
  decls =
      gen_decl (codes "// generate:reset" ∷ []) (
        struct_spec (codes "Pool")
          (record { names = codes "size" ∷ []; typ = Expr.ident (codes "int"); tag = none } ∷ [])
        ∷ [])
      ∷ [];
})

abbrev agent_dir : Text → Text
agent_dir path = codes "internal/agent"

-- A source file, and a directory that is skipped with another.
abbrev small_tree : Node
small_tree = dir none (
    entry (codes ".git") (dir none (entry (codes "b.go") file nil)) (entry (codes "a.go") file nil))

abbrev join_path : Text → Text → Text
join_path path name = path ++ (codes "/" ++ name)

-- A disk is its files, the last written one first.
abbrev Disk : Type 0
Disk = GoMap Text

abbrev write_file : Text → Text → Disk → Option Error × Disk
write_file path t disk = (none, (path, t) ∷ disk)

abbrev SameText : Text → Text → Type 0
SameText a b = a ≡ b

disk_writes : Writing write_file (λ disk path. lookup path disk) SameText
unfolding lookup
disk_writes = record {
  wrote = λ path t disk e. rw (str_eq_refl path) refl;
  elsewhere = λ path other t disk apart. ground (arith, apart, str_eq_iff path other);
}

abbrev output_path : Text → Text
output_path d = d ++ codes "/reset.gen.go"

abbrev agent_package : PackageInfo
agent_package = record {
  name = codes "agent";
  imports = [];
  structs =
      record {
        name = codes "Pool";
        fields = record { name = codes "size"; typ = codes "int"; tag = [] } ∷ [];
      }
      ∷ [];
}

abbrev agent_text : Text
agent_text =
    reset_template
      (template_data ok output_path write_file (codes "int" ∷ []) (λ imports. []) agent_package)

main-written_example :
    let result =
      main ok output_path write_file
        (λ pkg. codes "int" ∷ [])
        (λ imports. [])
        parse_file
        agent_dir
        (λ p. p)
        join_path
        (λ root. small_tree)
        (λ packages. packages)
        []
        [] in
    (result.0.0 ≡ 0)
    × (lookup (codes "internal/agent/reset.gen.go") result.1 ≡ some agent_text)
    × (map
          (λ s. s.name)
          (template_data ok output_path write_file
            (codes "int" ∷ [])
            (λ imports. [])
            agent_package).structs
        ≡ map (λ s. s.name) agent_package.structs)
    × (agent_package.structs
        ≡ all_marked parse_file agent_dir
            (codes "internal/agent")
            (analyzed (files join_path (codes ".") [] (codes ".") small_tree)))
unfolding lookup IsReadable scan walk visit is_skipped is_source has_suffix process_file add_file
    package_dir decl_structs spec_structs fields_of has_reset_comment expr_to_string str_eq
    has_prefix insert trim_prefix any contains
main-written_example =
    main-written ok output_path write_file (λ pkg. codes "int" ∷ []) (λ imports. []) disk_writes
      parse_file agent_dir (λ p. p) join_path (λ root. small_tree) (λ packages. packages) [] []
      (codes "internal/agent") agent_package agent_text
      (
        Ranges-self _ (refl, tt),
        λ k pkg found same.
            append_cancel_right k (codes "internal/agent") (codes "/reset.gen.go") same,
      )
      (refl, λ h. ((refl, λ v. (tt, tt)), (tt, tt))) refl (λ h. cc h) refl (λ now. refl)

abbrev main_package : Pass
main_package = record {
  path = codes "example.com/app";
  pkg = codes "main";
  files = (func_decl (codes "main") (some (10, 20)) ∷ []) ∷ [];
}

abbrev calls : List CallExpr
calls =
    record {
      fun = selector (some (pkg_name (codes "example.com/app") (codes "os"))) (codes "Exit");
      pos = 15;
    }
    ∷ record {
      fun = selector (some (pkg_name (codes "example.com/app") (codes "log"))) (codes "Fatalf");
      pos = 30;
    }
    ∷ record { fun = ident (codes "panic"); pos = 16 }
    ∷ []

run-forbidden_example :
    map (λ (r : ℕ × Text). r.0) (run main_package calls) ≡ filter_forbidden main_package calls
run-forbidden_example = run-forbidden main_package calls (refl, (refl, (tt, tt)))
