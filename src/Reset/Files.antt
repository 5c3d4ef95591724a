-- ===== src/Reset/Files.antt =====
-- `processFile`, the loop of `main` over the files, and `generateResetFile`.
pub mod Marked
use go_musthave_metrics.Base.{
  Bool, true, false, ◌&&◌, not, Option, none, some, List, [], ◌∷◌, ◌++◌, map, any, ◌==◌,
  if◌then◌else◌,
}
use go_musthave_metrics.Base.Text.{Text, codes, str_eq, contains, trim_prefix}
use go_musthave_metrics.Base.Maps.{GoMap, lookup, insert}
use go_musthave_metrics.Base.Results.{Error, Result, ok, err}
use go_musthave_metrics.Reset.Syntax.{
  Expr, expr_to_string, FieldInfo, StructInfo, ImportInfo, PackageInfo,
}
use go_musthave_metrics.Reset.Bodies.{generate_struct_reset_body}
use go_musthave_metrics.Reset.Imports.{collect_needed_imports}
use go_musthave_metrics.Reset.Template.{TmplData, TmplStruct, reset_template}

-- What `processFile` reads of an ast.File.
pub record AstField : Type 0 where
  pub names : List Text
  pub typ : Expr
  pub tag : Option Text

pub data Spec : Type 0 where
  struct_spec : Text → List AstField → Spec
  other_spec : Spec

pub data Decl : Type 0 where
  gen_decl : List Text → List Spec → Decl
  other_decl : Decl

-- An import is its alias, if any, and its quoted path.
pub record AstFile : Type 0 where
  pub package_name : Text
  pub imports : List (Option Text × Text)
  pub decls : List Decl

trim_left_quotes : Text → Text
trim_left_quotes [] = []
trim_left_quotes (c ∷ s) = if c == b'"' then trim_left_quotes s else c ∷ s

trim_right_quotes : Text → Text
trim_right_quotes [] = []
trim_right_quotes (c ∷ s) =
    let rest = trim_right_quotes s in if str_eq rest [] && c == b'"' then [] else c ∷ rest

-- `strings.Trim(s, "\"")`
trim_quotes : Text → Text
trim_quotes s = trim_right_quotes (trim_left_quotes s)

pub import_info : Option Text × Text → ImportInfo
import_info (alias, value) = record {
  name = elim alias [ none ↦ [] | some n ↦ n ];
  path = trim_quotes value;
}

unfoldable pub has_reset_comment : List Text → Bool
has_reset_comment doc = any (λ comment. contains comment (codes "generate:reset")) doc

-- The loop over the fields of a struct: an embedded field has no name, and of several names the
-- first one counts.
unfoldable pub fields_of : List AstField → List FieldInfo
fields_of [] = []
fields_of (f ∷ fs) = elim f.names [
  | [] ↦ fields_of fs
  | n ∷ ns ↦
      record { name = n; typ = expr_to_string f.typ; tag = elim f.tag [ none ↦ [] | some t ↦ t ] }
      ∷ fields_of fs
]

unfoldable pub spec_structs : List Spec → List StructInfo
spec_structs [] = []
spec_structs (struct_spec name fields ∷ specs) =
    record { name = name; fields = fields_of fields } ∷ spec_structs specs
spec_structs (other_spec ∷ specs) = spec_structs specs

-- The structs of the declarations that carry the marker.
unfoldable pub decl_structs : List Decl → List StructInfo
decl_structs [] = []
decl_structs (gen_decl doc specs ∷ decls) =
    if has_reset_comment doc then spec_structs specs ++ decl_structs decls else decl_structs decls
decl_structs (other_decl ∷ decls) = decl_structs decls

-- A new package takes the name of its first file.
unfoldable pub add_file : AstFile → Option PackageInfo → PackageInfo
add_file node none = record {
  name = node.package_name;
  imports = map import_info node.imports;
  structs = decl_structs node.decls;
}
add_file node (some pkg) = record pkg {
  imports = pkg.imports ++ map import_info node.imports;
  structs = pkg.structs ++ decl_structs node.decls;
}

-- go/parser, and `filepath.Dir`.
module _ (parse_file : Text → Result AstFile) (dir : Text → Text) where
  unfoldable pub package_dir : Text → Text
  package_dir file_path = trim_prefix (dir file_path) (codes "./")

  unfoldable pub process_file : Text → GoMap PackageInfo → GoMap PackageInfo
  process_file file_path packages = elim (parse_file file_path) [
    | err e ↦ packages
    | ok node ↦
        insert (package_dir file_path) (add_file node (lookup (package_dir file_path) packages))
          packages
  ]

  -- The files in the order of the walk.
  unfoldable pub process_files : List Text → GoMap PackageInfo → GoMap PackageInfo
  process_files [] packages = packages
  process_files (file_path ∷ files) packages = process_files files (process_file file_path packages)

-- go/format, `filepath.Join` with `reset.gen.go`, and `os.WriteFile`. `types` and `visit` are what the
-- loops over the two maps visit.
module _ {Disk : Type 0} (format_source : Text → Result Text) (output_path : Text → Text)
    (write_file : Text → Text → Disk → Option Error × Disk) where
  unfoldable pub template_data :
      List Text → (GoMap ImportInfo → List ImportInfo) → PackageInfo → TmplData
  template_data types visit pkg = record {
    package_name = pkg.name;
    imports = visit (collect_needed_imports types pkg.imports);
    structs =
        map (λ s. record { name = s.name; body = generate_struct_reset_body s pkg.structs })
          pkg.structs;
  }

  unfoldable pub generate_reset_file :
      List Text
      → (GoMap ImportInfo → List ImportInfo)
      → Text
      → PackageInfo
      → Disk
      → Option Error × Disk
  generate_reset_file types visit pkg_path pkg disk =
      let source = reset_template (template_data types visit pkg) in
      elim (format_source source) [
        | err e ↦ (
          some (codes "ошибка форматирования кода: " ++ e ++ codes "\nИсходный код:\n" ++ source),
          disk,
        )
        | ok formatted ↦
            let (e, disk') = write_file (output_path pkg_path) formatted disk in
            (elim e [ none ↦ none | some m ↦ some (codes "ошибка записи файла: " ++ m) ], disk')
      ]
