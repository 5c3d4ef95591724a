-- ===== src/Reset/Walk.antt =====
-- cmd/reset/main.go, and the `filepath.Walk` that it calls. What it prints is left out.
pub mod Scanned
pub mod Written
use mathlib.Core.List.{reverse}
use go_musthave_metrics.Base.{
  ℕ, suc, Bool, true, false, not, ◌&&◌, ◌||◌, Option, none, some, List, [], ◌∷◌, if◌then◌else◌,
}
use go_musthave_metrics.Base.Text.{Text, codes, str_eq, has_prefix}
use go_musthave_metrics.Base.Maps.{GoMap}
use go_musthave_metrics.Base.Results.{Error, Result}
use go_musthave_metrics.Reset.Syntax.{ImportInfo, PackageInfo}
use go_musthave_metrics.Reset.Files.{AstFile, process_file, generate_reset_file}

-- A tree of files; a directory has the error of reading its names, if any, and the names in their
-- order. `lost` is what `Lstat` fails on.
mutual
  pub data Node : Type 0 where
    file : Node
    dir : Option Error → Entries → Node
    lost : Error → Node

  pub data Entries : Type 0 where
    nil : Entries
    entry : Text → Node → Entries → Entries

-- What the function of a walk returns: nil, `filepath.SkipDir`, or another error.
pub data Verdict : Type 0 where
  continues skips_dir : Verdict
  fails : Error → Verdict

abbrev pub is_file : Node → Bool
is_file file = true
is_file (dir e es) = false
is_file (lost e) = false

-- `walk_fn` gets the path, the name, whether it is a directory, and an error.
module _ {S : Type 0} (walk_fn : Text → Text → Bool → Option Error → S → Verdict × S)
    (join_path : Text → Text → Text) where
  unfoldable mutual
    pub walk : Text → Text → Node → S → Verdict × S
    walk path name file s = walk_fn path name false none s
    walk path name (lost e) s = walk_fn path name false (some e) s
    walk path name (dir (some e) entries) s = walk_fn path name true (some e) s
    walk path name (dir none entries) s =
        let (v, s1) = walk_fn path name true none s in
        elim v [
          | continues ↦ walk_entries path entries s1
          | skips_dir ↦ (skips_dir, s1)
          | fails e ↦ (fails e, s1)
        ]

    pub walk_entries : Text → Entries → S → Verdict × S
    walk_entries path nil s = (continues, s)
    walk_entries path (entry name node entries) s =
        let (v, s1) = walk (join_path path name) name node s in
        elim v [
          | continues ↦ walk_entries path entries s1
          | skips_dir ↦
              let rest = walk_entries path entries s1 in
              if is_file node then (skips_dir, s1) else rest
          | fails e ↦ (fails e, s1)
        ]

-- `strings.HasSuffix`
unfoldable pub has_suffix : Text → Text → Bool
has_suffix s p = has_prefix (reverse s) (reverse p)

-- A hidden directory, or `vendor`.
unfoldable pub is_skipped : Text → Bool
is_skipped name =
    (not (str_eq name (codes "."))
      && (not (str_eq name (codes "..")) && has_prefix name (codes ".")))
    || str_eq name (codes "vendor")

-- A file of Go that is not generated.
unfoldable pub is_source : Text → Bool
unfolding has_suffix
is_source name = has_suffix name (codes ".go") && not (has_suffix name (codes ".gen.go"))

abbrev pub Packages : Type 0
Packages = GoMap PackageInfo

module _ (parse_file : Text → Result AstFile) (dir_of : Text → Text) where
  -- The function that `main` gives to the walk.
  unfoldable pub visit : Text → Text → Bool → Option Error → Packages → Verdict × Packages
  visit path name is_dir (some e) packages = (fails e, packages)
  visit path name is_dir none packages =
      if is_dir
      then (if is_skipped name then skips_dir else continues, packages)
      else if is_source name
      then (continues, process_file parse_file dir_of path packages)
      else (continues, packages)

  -- `filepath.Walk` from the root: `SkipDir` is no error.
  unfoldable pub scan : (Text → Text → Text) → (Text → Text) → Text → Node → Option Error × Packages
  unfolding visit
  scan join_path base root node =
      let (v, packages) = walk visit join_path root (base root) node [] in
      (elim v [ continues ↦ none | skips_dir ↦ none | fails e ↦ some e ], packages)

abbrev pub root_dir : List Text → Text
root_dir [] = codes "."
root_dir (a ∷ args) = a

-- The operating system and the libraries. `types` and `imports` are what the loops over the two maps of
-- `generateResetFile` visit, and `range` what the loop over the packages does.
module _ {Disk : Type 0} (format_source : Text → Result Text) (output_path : Text → Text)
    (write_file : Text → Text → Disk → Option Error × Disk) (types : PackageInfo → List Text)
    (imports : GoMap ImportInfo → List ImportInfo) where
  -- The loop over the packages, with the count of the files that were written.
  unfoldable pub generate_all : List (Text × PackageInfo) → Disk → ℕ × Disk
  generate_all [] disk = (0, disk)
  generate_all ((pkg_path, pkg_info) ∷ packages) disk = elim pkg_info.structs [
    | [] ↦ generate_all packages disk
    | s ∷ structs ↦
        let (e, disk1) =
          generate_reset_file format_source output_path write_file (types pkg_info) imports pkg_path
            pkg_info disk in
        let (count, disk2) = generate_all packages disk1 in
        (elim e [ none ↦ suc count | some x ↦ count ], disk2)
  ]

  module _ (parse_file : Text → Result AstFile) (dir_of base : Text → Text)
      (join_path : Text → Text → Text) (tree : Text → Node)
      (range : Packages → List (Text × PackageInfo)) where
    -- The exit code, and the count that is printed.
    unfoldable pub main : List Text → Disk → (ℕ × Option ℕ) × Disk
    unfolding generate_all
    main args disk =
        let (e, packages) =
          scan parse_file dir_of join_path base (root_dir args) (tree (root_dir args)) in
        elim e [
          | some x ↦ ((1, none), disk)
          | none ↦
              let (count, disk') = generate_all (range packages) disk in ((0, some count), disk')
        ]
