-- ===== src/Reset/Walk/Written.antt =====
-- Which files a run of the generator leaves on the disk.
use mathlib.Core.Path.{subst}
use go_musthave_metrics.Base.{
  ℕ, ◌≡◌, ◌≢◌, refl, map, sym, ap, ◌∙◌, ◌⊎◌, inl, inr, Bool-cases, Option, none, some, List, [],
  ◌∷◌, arith,
}
use go_musthave_metrics.Base.Text.{Text, str_eq, str_eq_iff, str_eq_refl}
use go_musthave_metrics.Base.Maps.{GoMap, lookup, IsUnique, Ranges}
use go_musthave_metrics.Base.Results.{Error, Result, ok, Result-cases}
use go_musthave_metrics.Reset.Syntax.{StructInfo, ImportInfo, PackageInfo}
use go_musthave_metrics.Reset.Template.{TmplStruct, reset_template}
use go_musthave_metrics.Reset.Bodies.{generate_struct_reset_body}
use go_musthave_metrics.Reset.Files.{AstFile, template_data, generate_reset_file}
use go_musthave_metrics.Reset.Files.Marked.{all_marked}
use go_musthave_metrics.Reset.Walk.{Node, Packages, scan, generate_all, main, root_dir}
use go_musthave_metrics.Reset.Walk.Scanned.{files, analyzed, IsReadable, scan-structs_at}

-- `os.WriteFile` on the contents of the files, where `SameFile` says that two paths lead to one file.
pub record Writing {Disk : Type 0} (write_file : Text → Text → Disk → Option Error × Disk)
    (content : Disk → Text → Option Text) (SameFile : Text → Text → Type 0) : Type 0 where
  pub wrote :
      (path t : Text) (disk : Disk)
      → (write_file path t disk).0 ≡ none
      → content (write_file path t disk).1 path ≡ some t
  pub elsewhere :
      (path other t : Text) (disk : Disk)
      → ¬ SameFile path other
      → content (write_file path t disk).1 other ≡ content disk other

-- No other directory has the file of the directory `d`.
abbrev OwnFile : (Text → Text) → (Text → Text → Type 0) → Text → List (Text × PackageInfo) → Type 0
OwnFile output_path SameFile d packages =
    (k : Text) (pkg : PackageInfo)
    → lookup k packages ≡ some pkg
    → SameFile (output_path k) (output_path d)
    → k ≡ d

empty_or_not {ℓ} :
    {A : Type ℓ} (xs : List A) → (xs ≡ []) ⊎ ((x : A) × (ys : List A) × (xs ≡ x ∷ ys))
empty_or_not [] = inl refl
empty_or_not (x ∷ xs) = inr (x, xs, refl)

module _ {Disk : Type 0} (format_source : Text → Result Text) (output_path : Text → Text)
    (write_file : Text → Text → Disk → Option Error × Disk) (types : PackageInfo → List Text)
    (imports : GoMap ImportInfo → List ImportInfo) {content : Disk → Text → Option Text}
    {SameFile : Text → Text → Type 0} (writing : Writing write_file content SameFile) where
  abbrev generated : PackageInfo → Text
  generated pkg =
      reset_template (template_data format_source output_path write_file (types pkg) imports pkg)

  -- The file has one method for each struct of the package.
  methods-names :
      (pkg : PackageInfo)
      → map
          (λ s. s.name)
          (template_data format_source output_path write_file (types pkg) imports pkg).structs
        ≡ map (λ s. s.name) pkg.structs
  unfolding template_data
  methods-names pkg = go pkg.structs
    where
      go :
          (ss : List StructInfo)
          → map
              (λ (s : TmplStruct). s.name)
              (map
                (λ s. record { name = s.name; body = generate_struct_reset_body s pkg.structs })
                ss)
            ≡ map (λ s. s.name) ss
      go [] = refl
      go (s ∷ ss) = ap (λ ns. s.name ∷ ns) (go ss)

  abbrev generate : Text → PackageInfo → Disk → Option Error × Disk
  generate k pkg =
      generate_reset_file format_source output_path write_file (types pkg) imports k pkg

  generate_elsewhere :
      (k d : Text) (pkg : PackageInfo) (disk : Disk)
      → ¬ SameFile (output_path k) (output_path d)
      → content (generate k pkg disk).1 (output_path d) ≡ content disk (output_path d)
  unfolding generate_reset_file
  generate_elsewhere k d pkg disk apart = elim (Result-cases (format_source (generated pkg))) [
    | inl (t, e) ↦
        rw (e, generate_reset_file) (writing.elsewhere (output_path k) (output_path d) t disk apart)
    | inr (x, e) ↦ rw (e, generate_reset_file) refl
  ]

  generate_here :
      (d : Text) (pkg : PackageInfo) (disk : Disk) (t : Text)
      → format_source (generated pkg) ≡ ok t
      → (write_file (output_path d) t disk).0 ≡ none
      → content (generate d pkg disk).1 (output_path d) ≡ some t
  unfolding generate_reset_file
  generate_here d pkg disk t e w =
      rw (e, generate_reset_file) (writing.wrote (output_path d) t disk w)

  abbrev generates : List (Text × PackageInfo) → Disk → ℕ × Disk
  generates = generate_all format_source output_path write_file types imports

  -- A turn of the loop.
  generates-empty :
      (k : Text) (pkg : PackageInfo) (packages : List (Text × PackageInfo)) (disk : Disk)
      → pkg.structs ≡ []
      → generates ((k, pkg) ∷ packages) disk ≡ generates packages disk
  unfolding generate_all
  generates-empty k pkg packages disk e = rw (e, generate_all) refl

  generates-marked :
      (k : Text) (pkg : PackageInfo) (packages : List (Text × PackageInfo)) (disk : Disk)
      → pkg.structs ≢ []
      → (generates ((k, pkg) ∷ packages) disk).1 ≡ (generates packages (generate k pkg disk).1).1
  unfolding generate_all
  generates-marked k pkg packages disk some_struct = elim (empty_or_not pkg.structs) [
    | inl e ↦ absurd (some_struct e)
    | inr (s, ss, e) ↦ ground (arith, e)
  ]

  abbrev Own : Text → List (Text × PackageInfo) → Type 0
  Own = OwnFile output_path SameFile

  Own-tail :
      (d k : Text) (pkg : PackageInfo) (packages : List (Text × PackageInfo))
      → Own d ((k, pkg) ∷ packages)
      → Own d packages
  unfolding lookup
  Own-tail d k pkg packages own j info found same = elim (Bool-cases (str_eq k j)) [
    | inl h ↦ own j pkg (rw h refl) same
    | inr h ↦ own j info (rw h found) same
  ]

  untouched :
      (d : Text) (packages : List (Text × PackageInfo)) (disk : Disk)
      → Own d packages
      → lookup d packages ≡ none
      → content (generates packages disk).1 (output_path d) ≡ content disk (output_path d)
  unfolding lookup generate_all
  untouched d [] disk own absent = refl
  untouched d ((k, pkg) ∷ packages) disk own absent =
      let absent_below : lookup d packages ≡ none = ground (arith, absent) in
      let apart : k ≢ d = λ h. ground (arith, absent, str_eq_iff k d, h) in
      let below = Own-tail d k pkg packages own in
      let head_apart : ¬ SameFile (output_path k) (output_path d) =
        λ same. apart (own k pkg (rw (str_eq_refl k) refl) same) in
      elim (empty_or_not pkg.structs) [
        | inl e ↦
            rw (generates-empty k pkg packages disk e)
              (untouched d packages disk below absent_below)
        | inr (s, ss, e) ↦ rw (generates-marked k pkg packages disk (λ h. ground (arith, e, h))) (
            untouched d packages (generate k pkg disk).1 below absent_below
            ∙ generate_elsewhere k d pkg disk head_apart)
      ]

  generated_once :
      (d : Text) (pkg : PackageInfo) (t : Text) (packages : List (Text × PackageInfo)) (disk : Disk)
      → IsUnique packages
      → Own d packages
      → lookup d packages ≡ some pkg
      → pkg.structs ≢ []
      → format_source (generated pkg) ≡ ok t
      → ((now : Disk) → (write_file (output_path d) t now).0 ≡ none)
      → content (generates packages disk).1 (output_path d) ≡ some t
  unfolding lookup
  generated_once d pkg t [] disk u own found some_struct f w = cc
  generated_once d pkg t ((k, info) ∷ packages) disk u own found some_struct f w =
      let tail_own = Own-tail d k info packages own in
      elim (Bool-cases (str_eq k d)) [
        | inl here ↦
            let same_key : k ≡ d = (str_eq_iff k d).0 here in
            let same : info ≡ pkg = ground (arith, found, here) in
            let alone : lookup d packages ≡ none =
              subst (λ x. lookup x packages ≡ none) same_key u.0 in
            rw
              (generates-marked k info packages disk
                (subst (λ (i : PackageInfo). i.structs ≢ []) (sym same) some_struct))
              (untouched d packages (generate k info disk).1 tail_own alone
                ∙ subst
                    (λ (x : Text × PackageInfo).
                      content (generate x.0 x.1 disk).1 (output_path d) ≡ some t)
                    (λ i. (sym same_key i, sym same i)) (generate_here d pkg disk t f (w disk)))
        | inr other ↦
            let below : lookup d packages ≡ some pkg = ground (arith, found, other) in
            elim (empty_or_not info.structs) [
              | inl e ↦
                  rw (generates-empty k info packages disk e)
                    (generated_once d pkg t packages disk u.1 tail_own below some_struct f w)
              | inr (s, ss, e) ↦
                  rw (generates-marked k info packages disk (λ h. ground (arith, e, h))) (
                    generated_once d pkg t packages (generate k info disk).1 u.1 tail_own below
                      some_struct f w)
            ]
      ]

  -- A run over a readable tree ends with exit code 0, and for a directory with at least one marked
  -- struct, whose generated text is accepted by the formatter and can be written, the file of that
  -- directory then holds it. The data of its template has one method for each struct of the
  -- package, in order, and these structs are those of the declarations with the marker in the
  -- source files of the directory, which are in no hidden directory and no `vendor`. The loop
  -- visits each package once, and no other directory with a package has the same file.
  pub main-written :
      (parse_file : Text → Result AstFile) (dir_of base : Text → Text)
      (join_path : Text → Text → Text) (tree : Text → Node)
      (range : Packages → List (Text × PackageInfo)) (args : List Text) (disk : Disk) (d : Text)
      (pkg : PackageInfo) (t : Text)
      → let packages =
          (scan parse_file dir_of join_path base (root_dir args) (tree (root_dir args))).1 in
        Ranges (range packages) packages × OwnFile output_path SameFile d packages
        → IsReadable (base (root_dir args)) (tree (root_dir args))
        → lookup d (scan parse_file dir_of join_path base (root_dir args) (tree (root_dir args))).1
          ≡ some pkg
        → pkg.structs ≢ []
        → format_source (generated pkg) ≡ ok t
        → ((now : Disk) → (write_file (output_path d) t now).0 ≡ none)
        → let result =
            main format_source output_path write_file types imports parse_file dir_of base join_path
              tree range args disk in
          (result.0.0 ≡ 0)
          × (content result.1 (output_path d) ≡ some t)
          × (map
                (λ s. s.name)
                (template_data format_source output_path write_file (types pkg) imports pkg).structs
              ≡ map (λ s. s.name) pkg.structs)
          × (pkg.structs
              ≡ all_marked parse_file dir_of d (
                  analyzed (
                    files join_path
                      (root_dir args)
                      []
                      (base (root_dir args))
                      (tree (root_dir args)))))
  unfolding main
  main-written parse_file dir_of base join_path tree range args disk d pkg t (ranges, own) readable
        found some_struct f w =
      let (fine, structs) =
        scan-structs_at parse_file dir_of join_path base (root_dir args) (tree (root_dir args)) d
          readable in
      let written =
        generated_once d pkg t
          (range (scan parse_file dir_of join_path base (root_dir args) (tree (root_dir args))).1)
          disk ranges.once (λ k i h. own k i (sym (ranges.same k) ∙ h)) (ranges.same d ∙ found)
          some_struct f w in
      (
        rw (fine, main) refl,
        rw (fine, main) written,
        methods-names pkg,
        sym (ap (λ (o : Option PackageInfo). elim o [ none ↦ [] | some p ↦ p.structs ]) found)
            ∙ structs,
      )
