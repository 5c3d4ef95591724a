-- ===== src/Reset/Bodies/Lines.antt =====
-- The lines of a body.
use mathlib.Core.List.{append-nil, map-append}
use go_musthave_metrics.Base.{
  ℕ, ◌≡◌, ◌≢◌, refl, sym, ap, ◌∙◌, false, List, [], ◌∷◌, ◌++◌, map, ◌==◌, any, All, arith,
  if◌then◌else◌, inl, inr, Bool-cases,
}
use go_musthave_metrics.Base.Text.{
  Text, codes, str_eq, str_eq-false, str_eq_refl, split, split_first, split_rest, join,
}
use go_musthave_metrics.Reset.Syntax.{FieldInfo, StructInfo}
use go_musthave_metrics.Reset.Fields.{generate_field_reset}
use go_musthave_metrics.Reset.Bodies.{indent_code, body_lines, generate_struct_reset_body}

module _ (sep : ℕ) where
  split_first-append : (p s : Text) → split_first sep (p ++ sep ∷ s) ≡ split_first sep p
  unfolding split_first
  split_first-append [] s = ground arith
  split_first-append (c ∷ p) s = ground (arith, split_first-append p s)

  split_rest-append : (p s : Text) → split_rest sep (p ++ sep ∷ s) ≡ split_rest sep p ++ split sep s
  unfolding split split_rest
  split_rest-append [] s = ground arith
  split_rest-append (c ∷ p) s = ground (arith, split_first-append p s, split_rest-append p s)

  split-append : (p s : Text) → split sep (p ++ sep ∷ s) ≡ split sep p ++ split sep s
  unfolding split
  split-append p s = ground (arith, split_first-append p s, split_rest-append p s)

  -- The lines of all the texts, in order.
  split_all : List Text → List Text
  split_all [] = []
  split_all (p ∷ ps) = split sep p ++ split_all ps

  split-join :
      (p : Text) (ps : List Text) → split sep (join (sep ∷ []) (p ∷ ps)) ≡ split_all (p ∷ ps)
  unfolding join split_all
  split-join p [] = sym (append-nil (split sep p))
  split-join p (q ∷ ps) =
      split-append p (join (sep ∷ []) (q ∷ ps)) ∙ ap (λ t. split sep p ++ t) (split-join q ps)

  IsLine : Text → Type 0
  IsLine l = any (λ c. c == sep) l ≡ false

  split_first-IsLine : (s : Text) → IsLine (split_first sep s)
  unfolding split_first any IsLine
  split_first-IsLine [] = refl
  split_first-IsLine (c ∷ s) = ground (arith, split_first-IsLine s)

  split_rest-IsLine : (s : Text) → All IsLine (split_rest sep s)
  unfolding split_rest
  split_rest-IsLine [] = tt
  split_rest-IsLine (c ∷ s) = elim (Bool-cases (c == sep)) [
    | inl e ↦ rw e (split_first-IsLine s, split_rest-IsLine s)
    | inr e ↦ rw e (split_rest-IsLine s)
  ]

  split_first-line : (l : Text) → IsLine l → split_first sep l ≡ l
  unfolding split_first IsLine any
  split_first-line [] h = refl
  split_first-line (c ∷ l) h = ground (arith, split_first-line l)

  split_rest-line : (l : Text) → IsLine l → split_rest sep l ≡ []
  unfolding split_rest IsLine any
  split_rest-line [] h = refl
  split_rest-line (c ∷ l) h = ground (arith, split_rest-line l)

  split-line : (l : Text) → IsLine l → split sep l ≡ l ∷ []
  unfolding split
  split-line l h = ground (arith, split_first-line l h, split_rest-line l h)

  split_all-lines :
      (tab : ℕ) (ls : List Text)
      → (tab == sep) ≡ false
      → All IsLine ls
      → split_all (map (λ l. tab ∷ l) ls) ≡ map (λ l. tab ∷ l) ls
  unfolding split_all IsLine any
  split_all-lines tab [] ne h = refl
  split_all-lines tab (l ∷ ls) ne h =
      ground (arith, split-line (tab ∷ l), split_all-lines tab ls ne h.1)

abbrev tabbed : List Text → List Text
tabbed = map (λ l. b'\t' ∷ l)

split-indent_code :
    (code : Text)
    → code ≢ []
    → split b'\n' (indent_code code (codes "\t")) ≡ tabbed (split b'\n' code)
unfolding indent_code split
split-indent_code code h = rw (str_eq-false code [] h) (
    split-join b'\n' (b'\t' ∷ split_first b'\n' code) (tabbed (split_rest b'\n' code))
    ∙ split_all-lines b'\n' b'\t' (split b'\n' code) refl
        (split_first-IsLine b'\n' code, split_rest-IsLine b'\n' code))

-- The codes of the named fields that have one.
field_codes : List FieldInfo → List StructInfo → List Text
field_codes [] all_structs = []
field_codes (f ∷ fs) all_structs =
    let rest = field_codes fs all_structs in
    let code = generate_field_reset f all_structs in
    if str_eq f.name [] then rest else if str_eq code [] then rest else code ∷ rest

body_lines-lines :
    (fields : List FieldInfo) (all_structs : List StructInfo)
    → split_all b'\n' (body_lines fields all_structs)
      ≡ tabbed (split_all b'\n' (field_codes fields all_structs))
unfolding body_lines field_codes split_all
body_lines-lines [] all_structs = refl
body_lines-lines (f ∷ fs) all_structs = elim (Bool-cases (str_eq f.name [])) [
  | inl e ↦ rw e (body_lines-lines fs all_structs)
  | inr e ↦ elim (Bool-cases (str_eq (generate_field_reset f all_structs) [])) [
    | inl z ↦ rw (e, z) (body_lines-lines fs all_structs)
    | inr z ↦
        rw
          (
            e,
            z,
            split-indent_code (generate_field_reset f all_structs) (λ q. cc (z, q, str_eq_refl [])),
            body_lines-lines fs all_structs,
            map-append,
          )
          refl
  ]
]

-- An empty text has one line.
abbrev or_blank : List Text → List Text
or_blank [] = [] ∷ []
or_blank (l ∷ ls) = l ∷ ls

split-join_blank :
    (sep : ℕ) (ps : List Text) → split sep (join (sep ∷ []) ps) ≡ or_blank (split_all sep ps)
unfolding join split_all split
split-join_blank sep [] = refl
split-join_blank sep (p ∷ ps) = split-join sep p ps

-- The lines of the body of a method are those of the codes of its fields, in the order of the
-- fields and each behind one tab; a body without code is one empty line.
generate_struct_reset_body-lines :
    (s : StructInfo) (all_structs : List StructInfo)
    → split b'\n' (generate_struct_reset_body s all_structs)
      ≡ or_blank (tabbed (split_all b'\n' (field_codes s.fields all_structs)))
unfolding generate_struct_reset_body
generate_struct_reset_body-lines s all_structs =
    split-join_blank b'\n' (body_lines s.fields all_structs)
    ∙ ap or_blank (body_lines-lines s.fields all_structs)
