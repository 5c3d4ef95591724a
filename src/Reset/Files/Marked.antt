-- ===== src/Reset/Files/Marked.antt =====
-- Which structs get a method.
use mathlib.Core.List.{append_assoc, append-nil}
use go_musthave_metrics.Base.{
  ◌≡◌, refl, any, Bool-cases, inl, inr, ◌∙◌, ap, sym, Option, none, some, List, [], ◌∷◌, ◌++◌,
  arith, if◌then◌else◌,
}
use go_musthave_metrics.Base.Text.{Text, codes, contains, trim_prefix, str_eq, str_eq_iff}
use go_musthave_metrics.Base.Maps.{GoMap, lookup, insert, lookup-insert}
use go_musthave_metrics.Base.Results.{Result, ok, err, Result-cases}
use go_musthave_metrics.Reset.Syntax.{expr_to_string, FieldInfo, StructInfo, PackageInfo}
use go_musthave_metrics.Reset.Files.{
  AstField, Spec, struct_spec, other_spec, Decl, gen_decl, other_decl, fields_of, spec_structs,
  has_reset_comment, AstFile, add_file, decl_structs, package_dir, process_file, process_files,
}

-- A field by its first name; an embedded field has none.
fields_in : List AstField → List FieldInfo
fields_in [] = []
fields_in (f ∷ fs) = elim f.names [
  | [] ↦ fields_in fs
  | n ∷ ns ↦
      record { name = n; typ = expr_to_string f.typ; tag = elim f.tag [ none ↦ [] | some t ↦ t ] }
      ∷ fields_in fs
]

structs_in : List Spec → List StructInfo
structs_in [] = []
structs_in (struct_spec name fields ∷ specs) =
    record { name = name; fields = fields_in fields } ∷ structs_in specs
structs_in (other_spec ∷ specs) = structs_in specs

-- The structs of the declarations that have `generate:reset` in a line of their comment.
pub marked_structs : List Decl → List StructInfo
marked_structs [] = []
marked_structs (gen_decl doc specs ∷ decls) =
    (if any (λ line. contains line (codes "generate:reset")) doc then structs_in specs else [])
    ++ marked_structs decls
marked_structs (other_decl ∷ decls) = marked_structs decls

fields_of-fields_in : (fs : List AstField) → fields_of fs ≡ fields_in fs
unfolding fields_of fields_in
fields_of-fields_in [] = refl
fields_of-fields_in (f ∷ fs) = ground (arith, fields_of-fields_in fs)

spec_structs-structs_in : (specs : List Spec) → spec_structs specs ≡ structs_in specs
unfolding spec_structs structs_in
spec_structs-structs_in [] = refl
spec_structs-structs_in (struct_spec name fields ∷ specs) =
    ground (arith, fields_of-fields_in fields, spec_structs-structs_in specs)
spec_structs-structs_in (other_spec ∷ specs) = spec_structs-structs_in specs

decl_structs-marked_structs : (decls : List Decl) → decl_structs decls ≡ marked_structs decls
unfolding decl_structs marked_structs has_reset_comment
decl_structs-marked_structs [] = refl
decl_structs-marked_structs (gen_decl doc specs ∷ decls) =
    ground (arith, spec_structs-structs_in specs, decl_structs-marked_structs decls)
decl_structs-marked_structs (other_decl ∷ decls) = decl_structs-marked_structs decls

abbrev pub structs_at : Text → GoMap PackageInfo → List StructInfo
structs_at d packages = elim (lookup d packages) [ none ↦ [] | some p ↦ p.structs ]

add_file-structs :
    (node : AstFile) (o : Option PackageInfo)
    → (add_file node o).structs
      ≡ elim o [ none ↦ [] | some p ↦ p.structs ] ++ marked_structs node.decls
unfolding add_file
add_file-structs node none = decl_structs-marked_structs node.decls
add_file-structs node (some p) = ap (λ t. p.structs ++ t) (decl_structs-marked_structs node.decls)

structs_at-insert :
    (k d : Text) (v : PackageInfo) (packages : GoMap PackageInfo)
    → structs_at d (insert k v packages) ≡ (if str_eq k d then v.structs else structs_at d packages)
structs_at-insert k d v packages = ground (arith, lookup-insert k d v packages)

added :
    (d k : Text) (node : AstFile) (packages : GoMap PackageInfo)
    → structs_at d (insert k (add_file node (lookup k packages)) packages)
      ≡ structs_at d packages ++ (if str_eq k d then marked_structs node.decls else [])
added d k node packages =
    structs_at-insert k d (add_file node (lookup k packages)) packages
    ∙ elim (Bool-cases (str_eq k d)) [
      | inl same ↦ rw (same, (str_eq_iff k d).0 same) (add_file-structs node (lookup d packages))
      | inr other ↦ rw other (sym (append-nil (structs_at d packages)))
    ]

module _ (parse_file : Text → Result AstFile) (dir : Text → Text) where
  -- What one file adds to the directory `d`, which has no `./` in front.
  abbrev marked : Text → Text → List StructInfo
  marked d file_path =
      if str_eq (trim_prefix (dir file_path) (codes "./")) d
      then elim (parse_file file_path) [ err e ↦ [] | ok node ↦ marked_structs node.decls ]
      else []

  abbrev pub all_marked : Text → List Text → List StructInfo
  all_marked d [] = []
  all_marked d (file_path ∷ files) = marked d file_path ++ all_marked d files

  process_file-structs_at :
      (d file_path : Text) (packages : GoMap PackageInfo)
      → structs_at d (process_file parse_file dir file_path packages)
        ≡ structs_at d packages ++ marked d file_path
  unfolding process_file package_dir
  process_file-structs_at d file_path packages = elim (Result-cases (parse_file file_path)) [
    | inl (node, e) ↦
        rw (e, process_file) (added d (package_dir parse_file dir file_path) node packages)
    | inr (x, e) ↦ rw (e, process_file) (ground (arith, append-nil (structs_at d packages)))
  ]

  -- The walk adds to the structs of a directory those of the declarations with the marker in its
  -- files that parse, in the order of the walk, and nothing of the files of other directories.
  pub process_files-structs_at :
      (d : Text) (files : List Text) (packages : GoMap PackageInfo)
      → structs_at d (process_files parse_file dir files packages)
        ≡ structs_at d packages ++ all_marked d files
  unfolding process_files
  process_files-structs_at d [] packages = sym (append-nil (structs_at d packages))
  process_files-structs_at d (file_path ∷ files) packages =
      process_files-structs_at d files (process_file parse_file dir file_path packages)
      ∙ ap (λ t. t ++ all_marked d files) (process_file-structs_at d file_path packages)
      ∙ append_assoc (structs_at d packages) (marked d file_path) (all_marked d files)
