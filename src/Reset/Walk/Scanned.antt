-- ===== src/Reset/Walk/Scanned.antt =====
-- Which files the walk analyzes.
use go_musthave_metrics.Base.{
  ◌≡◌, refl, ap, sym, ◌∙◌, Bool, true, false, not, ◌&&◌, ◌||◌, any, Option, none, some, List, [],
  ◌∷◌, ◌++◌, Bool-cases, inl, inr, arith, if◌then◌else◌,
}
use go_musthave_metrics.Base.Text.{Text, codes, str_eq, has_prefix}
use go_musthave_metrics.Base.Results.{Error, Result}
use go_musthave_metrics.Base.Maps.{lookup}
use go_musthave_metrics.Reset.Files.{AstFile, process_file, process_files}
use go_musthave_metrics.Reset.Files.Marked.{structs_at, all_marked, process_files-structs_at}
use go_musthave_metrics.Reset.Walk.{
  Node, Entries, file, dir, lost, nil, entry, Verdict, continues, skips_dir, fails, Packages,
  is_file, walk, walk_entries, is_skipped, is_source, has_suffix, visit, scan,
}

-- A directory whose name begins with a dot, but for `.` and `..`, and `vendor`.
pub is_left_out : Text → Bool
is_left_out name =
    (has_prefix name (codes ".")
      && (not (str_eq name (codes ".")) && not (str_eq name (codes ".."))))
    || str_eq name (codes "vendor")

-- A file whose name ends in `.go` and not in `.gen.go`.
pub is_go_source : Text → Bool
is_go_source name = not (has_suffix name (codes ".gen.go")) && has_suffix name (codes ".go")

is_skipped-is_left_out : (name : Text) → is_skipped name ≡ is_left_out name
unfolding is_skipped is_left_out
is_skipped-is_left_out name = ground arith

is_source-is_go_source : (name : Text) → is_source name ≡ is_go_source name
unfolding is_source is_go_source
is_source-is_go_source name = ground arith

-- A file of a tree: its path, the directories that it is in, and its name.
pub record Found : Type 0 where
  pub path : Text
  pub dirs : List Text
  pub name : Text

-- All files of a tree.
module _ (join_path : Text → Text → Text) where
  unfoldable mutual
    pub files : Text → List Text → Text → Node → List Found
    files path dirs name file = record { path = path; dirs = dirs; name = name } ∷ []
    files path dirs name (lost e) = []
    files path dirs name (dir e entries) = files_in path (name ∷ dirs) entries

    pub files_in : Text → List Text → Entries → List Found
    files_in path dirs nil = []
    files_in path dirs (entry name node entries) =
        files (join_path path name) dirs name node ++ files_in path dirs entries

-- A source file in no directory that is skipped.
abbrev is_analyzed : Found → Bool
is_analyzed f = not (any is_left_out f.dirs) && is_go_source f.name

abbrev pub analyzed : List Found → List Text
analyzed [] = []
analyzed (f ∷ fs) = if is_analyzed f then f.path ∷ analyzed fs else analyzed fs

any-cons :
    (name : Text) (dirs : List Text)
    → any is_left_out dirs ≡ true
    → any is_left_out (name ∷ dirs) ≡ true
unfolding any
any-cons name dirs h = ground (arith, h)

-- No directory fails to be read, and no entry is lost, but below a directory that is skipped.
unfoldable mutual
  pub IsReadable : Text → Node → Type 0
  IsReadable name file = Unit
  IsReadable name (lost e) = ⊥
  IsReadable name (dir e entries) = (e ≡ none) × (is_left_out name ≡ false → AreReadable entries)

  pub AreReadable : Entries → Type 0
  AreReadable nil = Unit
  AreReadable (entry name node entries) = IsReadable name node × AreReadable entries

analyzed-append : (xs ys : List Found) → analyzed (xs ++ ys) ≡ analyzed xs ++ analyzed ys
analyzed-append [] ys = refl
analyzed-append (x ∷ xs) ys = ground (arith, analyzed-append xs ys)

module _ (join_path : Text → Text → Text) where
  mutual
    unfolding files files_in

    skipped-files :
        (path : Text) (dirs : List Text) (name : Text) (node : Node)
        → any is_left_out dirs ≡ true
        → analyzed (files join_path path dirs name node) ≡ []
    skipped-files path dirs name file h = rw h refl
    skipped-files path dirs name (lost e) h = refl
    skipped-files path dirs name (dir e entries) h =
        skipped-files_in path (name ∷ dirs) entries (any-cons name dirs h)

    skipped-files_in :
        (path : Text) (dirs : List Text) (entries : Entries)
        → any is_left_out dirs ≡ true
        → analyzed (files_in join_path path dirs entries) ≡ []
    skipped-files_in path dirs nil h = refl
    skipped-files_in path dirs (entry name node entries) h =
        analyzed-append (files join_path (join_path path name) dirs name node)
          (files_in join_path path dirs entries)
        ∙ rw (skipped-files (join_path path name) dirs name node h)
            (skipped-files_in path dirs entries h)

-- What the walk returns at a node.
abbrev verdict : Text → Node → Verdict
verdict name file = continues
verdict name (lost e) = continues
verdict name (dir e entries) = if is_left_out name then skips_dir else continues

-- A loop over entries goes on after such a verdict.
goes_on :
    (name : Text) (node : Node) (packages : Packages) (rest : Verdict × Packages)
    → elim (verdict name node) [
      | continues ↦ rest
      | skips_dir ↦ if is_file node then (skips_dir, packages) else rest
      | fails e ↦ (fails e, packages)
    ]
      ≡ rest
goes_on name file packages rest = refl
goes_on name (lost e) packages rest = refl
goes_on name (dir e entries) packages rest = ground arith

abbrev as_error : Verdict → Option Error
as_error v = elim v [ continues ↦ none | skips_dir ↦ none | fails e ↦ some e ]

no_error : (name : Text) (node : Node) → as_error (verdict name node) ≡ none
no_error name file = refl
no_error name (lost e) = refl
no_error name (dir e entries) = ground arith

any-cons_visible :
    (name : Text) (dirs : List Text)
    → is_left_out name ≡ false
    → any is_left_out dirs ≡ false
    → any is_left_out (name ∷ dirs) ≡ false
unfolding any
any-cons_visible name dirs v h = ground (arith, v, h)

any-cons_skipped :
    (name : Text) (dirs : List Text)
    → is_left_out name ≡ true
    → any is_left_out (name ∷ dirs) ≡ true
unfolding any
any-cons_skipped name dirs s = ground (arith, s)

module _ (parse_file : Text → Result AstFile) (dir_of : Text → Text)
    (join_path : Text → Text → Text) where
  abbrev process : List Text → Packages → Packages
  process = process_files parse_file dir_of

  process-append :
      (xs ys : List Text) (packages : Packages)
      → process (xs ++ ys) packages ≡ process ys (process xs packages)
  unfolding process_files
  process-append [] ys packages = refl
  process-append (x ∷ xs) ys packages =
      process-append xs ys (process_file parse_file dir_of x packages)

  walk-dir :
      (path name : Text) (entries : Entries) (packages : Packages)
      → walk (visit parse_file dir_of) join_path path name (dir none entries) packages ≡ (
          if is_left_out name
          then (skips_dir, packages)
          else walk_entries (visit parse_file dir_of) join_path path entries packages)
  unfolding walk visit
  walk-dir path name entries packages = ground (arith, is_skipped-is_left_out name)

  walk_entries-entry :
      (path name : Text) (node : Node) (entries : Entries) (packages after : Packages)
      → walk (visit parse_file dir_of) join_path (join_path path name) name node packages
        ≡ (verdict name node, after)
      → walk_entries (visit parse_file dir_of) join_path path (entry name node entries) packages
        ≡ walk_entries (visit parse_file dir_of) join_path path entries after
  unfolding walk
  walk_entries-entry path name node entries packages after e =
      ap
        (λ (r : Verdict × Packages). elim r.0 [
          | continues ↦ walk_entries (visit parse_file dir_of) join_path path entries r.1
          | skips_dir ↦
              if is_file node
              then (skips_dir, r.1)
              else walk_entries (visit parse_file dir_of) join_path path entries r.1
          | fails x ↦ (fails x, r.1)
        ])
        e
      ∙ goes_on name node after
          (walk_entries (visit parse_file dir_of) join_path path entries after)

  mutual
    unfolding walk files visit process_files IsReadable

    walk-analyzed :
        (path : Text) (dirs : List Text) (name : Text) (node : Node) (packages : Packages)
        → any is_left_out dirs ≡ false
        → IsReadable name node
        → walk (visit parse_file dir_of) join_path path name node packages
          ≡ (verdict name node, process (analyzed (files join_path path dirs name node)) packages)
    walk-analyzed path dirs name file packages h readable = elim (Bool-cases (is_go_source name)) [
      | inl source ↦ rw (is_source-is_go_source name, source, h) refl
      | inr other ↦ rw (is_source-is_go_source name, other, h) refl
    ]
    walk-analyzed path dirs name (lost e) packages h readable = absurd readable
    walk-analyzed path dirs name (dir (some e) entries) packages h readable = cc (readable.0)
    walk-analyzed path dirs name (dir none entries) packages h readable =
        walk-dir path name entries packages ∙ elim (Bool-cases (is_left_out name)) [
          | inl skipped ↦
              rw
                (
                  skipped,
                  skipped-files_in join_path path (name ∷ dirs) entries
                      (any-cons_skipped name dirs skipped),
                )
                refl
          | inr visible ↦ rw visible (
              walk_entries-analyzed path (name ∷ dirs) entries packages
                (any-cons_visible name dirs visible h) (readable.1 visible))
        ]

    walk_entries-analyzed :
        (path : Text) (dirs : List Text) (entries : Entries) (packages : Packages)
        → any is_left_out dirs ≡ false
        → AreReadable entries
        → walk_entries (visit parse_file dir_of) join_path path entries packages
          ≡ (continues, process (analyzed (files_in join_path path dirs entries)) packages)
    walk_entries-analyzed path dirs nil packages h readable = refl
    walk_entries-analyzed path dirs (entry name node entries) packages h readable =
        walk_entries-entry path name node entries packages
          (process (analyzed (files join_path (join_path path name) dirs name node)) packages)
          (walk-analyzed (join_path path name) dirs name node packages h readable.0)
        ∙ walk_entries-analyzed path dirs entries
            (process (analyzed (files join_path (join_path path name) dirs name node)) packages) h
            readable.1
        ∙ ap (λ ps. (continues, ps))
            (sym (
                process-append (analyzed (files join_path (join_path path name) dirs name node))
                  (analyzed (files_in join_path path dirs entries)) packages)
              ∙ ap (λ fs. process fs packages)
                  (sym (
                    analyzed-append (files join_path (join_path path name) dirs name node)
                      (files_in join_path path dirs entries))))

  -- Over a readable tree the walk ends without an error, and then the structs of a directory are those
  -- of the declarations with the marker in its files that parse, of all files of the tree that are
  -- Go sources, not generated, and in no directory that is hidden or `vendor`, in the order of the
  -- tree.
  pub scan-structs_at :
      (base : Text → Text) (root : Text) (node : Node) (d : Text)
      → IsReadable (base root) node
      → let result = scan parse_file dir_of join_path base root node in
        (result.0 ≡ none)
        × (structs_at d result.1
            ≡ all_marked parse_file dir_of d (analyzed (files join_path root [] (base root) node)))
  unfolding scan any lookup
  scan-structs_at base root node d readable =
      let walked = walk-analyzed root [] (base root) node [] refl readable in
      (
        ap (λ (r : Verdict × Packages). as_error r.0) walked ∙ no_error (base root) node,
        ap (λ (r : Verdict × Packages). structs_at d r.1) walked
            ∙ process_files-structs_at parse_file dir_of d
                (analyzed (files join_path root [] (base root) node)) [],
      )
