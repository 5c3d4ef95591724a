-- ===== src/Reset/Imports/Qualified.antt =====
-- Which imports a file gets for types such as `*zap.Logger`.
use mathlib.Core.List.{append_assoc, append-nil}
use go_musthave_metrics.Base.{
  ◌≡◌, ◌≢◌, refl, ap, ◌∙◌, Bool, true, false, ◌&&◌, ◌||◌, ◌==◌, some, List, [], ◌∷◌, ◌++◌, map, any,
  All, arith, if◌then◌else◌,
}
use go_musthave_metrics.Base.Text.{
  Text, codes, str_eq, str_eq_iff, split_first, split_rest, contains, has_prefix, trim_prefix,
  cut_prefix,
}
use go_musthave_metrics.Reset.Syntax.{
  Expr, ident, star, array_type, map_type, selector, expr_to_string, ImportInfo,
}
use go_musthave_metrics.Reset.Imports.{
  last_or, get_package_name, after_bracket, base_type, type_package, is_import_of,
  collect_needed_imports,
}
use go_musthave_metrics.Reset.Imports.Needed.{is_listed, needs, listed}

-- A type `q.n` of another package, alone, under a pointer, in a slice, under a pointer to one, or as
-- the values of a map.
pub data Form : Type 0 where
  plain pointer slice pointer_to_slice : Form
  values_by : Text → Form

pub record Qualified : Type 0 where
  pub form : Form
  pub qualifier : Text
  pub name : Text

abbrev in_form : Form → Expr → Expr
in_form plain e = e
in_form pointer e = star e
in_form slice e = array_type false e
in_form pointer_to_slice e = star (array_type false e)
in_form (values_by k) e = map_type (ident k) e

abbrev pub type_text : Qualified → Text
type_text t = expr_to_string (in_form t.form (selector (ident t.qualifier) t.name))

-- No byte of these is in an identifier.
abbrev IsWord : Text → Type 0
IsWord = All (λ c. (c ≢ b'.') × (c ≢ b'*') × (c ≢ b'[') × (c ≢ b']'))

abbrev HasWords : Qualified → Type 0
HasWords t = (t.qualifier ≢ []) × IsWord t.qualifier × elim t.form [
  | values_by k ↦ IsWord k
  | plain ↦ Unit {0}
  | pointer ↦ Unit {0}
  | slice ↦ Unit {0}
  | pointer_to_slice ↦ Unit {0}
]

abbrev pub HaveWords : List Qualified → Type 0
HaveWords = All HasWords

-- What follows the last slash of a path.
last_element : Text → Text → Text
last_element seen [] = seen
last_element seen (c ∷ s) = if c == b'/' then last_element [] s else last_element (seen ++ c ∷ []) s

-- An import by the last part of its path, or by its alias.
pub is_called : Text → ImportInfo → Bool
is_called q imp = str_eq imp.name q || str_eq (last_element [] imp.path) q

last_or-last_element :
    (seen s : Text) → last_or (seen ++ split_first b'/' s) (split_rest b'/' s) ≡ last_element seen s
unfolding last_or split_first split_rest last_element
last_or-last_element seen [] = append-nil seen
last_or-last_element seen (c ∷ s) = ground (
  arith,
  last_or-last_element [] s,
  last_or-last_element (seen ++ c ∷ []) s,
  append_assoc seen (c ∷ []) (split_first b'/' s),
)

is_import_of-is_called :
    (q : Text) (imp : ImportInfo) → q ≢ [] → is_import_of q imp ≡ is_called q imp
unfolding is_import_of is_called get_package_name
is_import_of-is_called q imp named =
    ground (
      arith,
      named,
      last_or-last_element [] imp.path,
      str_eq_iff imp.name [],
      str_eq_iff imp.name q,
    )

first-word : (q n : Text) → IsWord q → split_first b'.' (q ++ b'.' ∷ n) ≡ q
unfolding split_first
first-word [] n h = refl
first-word (c ∷ q) n h = ground (arith, h.0.0, first-word q n h.1)

contains-dot : (s n : Text) → contains (s ++ b'.' ∷ n) (codes ".") ≡ true
unfolding contains has_prefix
contains-dot [] n = refl
contains-dot (c ∷ s) n = ground (arith, contains-dot s n)

-- No identifier begins with `*`, and none has a bracket in it.
no_star : (q : Text) → IsWord q → has_prefix q (codes "*") ≡ false
unfolding has_prefix
no_star [] h = refl
no_star (c ∷ q) h = ground (arith, h.0.1)

no_bracket : (p q t : Text) → IsWord q → has_prefix q (p ++ b'[' ∷ t) ≡ false
unfolding has_prefix
no_bracket [] [] t h = refl
no_bracket (a ∷ p) [] t h = refl
no_bracket [] (c ∷ q) t h = ground (arith, h.0.2)
no_bracket (a ∷ p) (c ∷ q) t h = ground (arith, no_bracket p q t h.1)

after_word : (k t : Text) → IsWord k → after_bracket (k ++ b']' ∷ t) ≡ some t
unfolding after_bracket
after_word [] t h = refl
after_word (c ∷ k) t h = ground (arith, h.0.3, after_word k t h.1)

module _ (q n : Text) (word : IsWord q) where
  abbrev no_slice : has_prefix q (codes "[]") ≡ false
  no_slice = no_bracket [] q (codes "]") word

  abbrev no_map : has_prefix q (codes "map[") ≡ false
  no_map = no_bracket (codes "map") q [] word

  base-plain : base_type (q ++ b'.' ∷ n) ≡ q
  unfolding base_type trim_prefix
  base-plain =
      rw (first-word q n word, trim_prefix) (ground (arith, no_star q word, no_slice, no_map))

  base-pointer : base_type (b'*' ∷ (q ++ b'.' ∷ n)) ≡ q
  unfolding base_type trim_prefix split_first has_prefix cut_prefix
  base-pointer = rw (first-word q n word) (ground (arith, no_slice, no_map))

  base-slice : base_type (b'[' ∷ b']' ∷ (q ++ b'.' ∷ n)) ≡ q
  unfolding base_type trim_prefix split_first has_prefix cut_prefix
  base-slice = rw (first-word q n word) (ground (arith, no_map))

  base-pointer_to_slice : base_type (b'*' ∷ b'[' ∷ b']' ∷ (q ++ b'.' ∷ n)) ≡ q
  unfolding base_type trim_prefix split_first has_prefix cut_prefix
  base-pointer_to_slice = rw (first-word q n word) (ground (arith, no_map))

  first-keyed :
      (k : Text) → IsWord k → split_first b'.' (k ++ b']' ∷ (q ++ b'.' ∷ n)) ≡ k ++ b']' ∷ q
  unfolding split_first
  first-keyed [] h = ap (λ t. b']' ∷ t) (first-word q n word)
  first-keyed (c ∷ k) h = ground (arith, h.0.0, first-keyed k h.1)

  base-values_by :
      (k : Text) → IsWord k → base_type (codes "map[" ++ (k ++ b']' ∷ (q ++ b'.' ∷ n))) ≡ q
  unfolding base_type trim_prefix split_first has_prefix cut_prefix after_bracket
  base-values_by k h = rw (first-keyed k h) (rw (after_word k q h) refl)

-- The type goes to the loop over the imports, with the name before its dot.
type_package-qualifier :
    (t : Qualified) → HasWords t → type_package (type_text t) ≡ some t.qualifier
unfolding type_package expr_to_string has_prefix
type_package-qualifier t h = go t.form t.qualifier t.name h
  where
    go :
        (f : Form) (q n : Text)
        → HasWords (record { form = f; qualifier = q; name = n })
        → type_package (type_text (record { form = f; qualifier = q; name = n })) ≡ some q
    go plain [] n h = absurd (h.0 refl)
    go plain (c ∷ q) n h =
        rw (append_assoc q (codes ".") n)
          (ground (arith, contains-dot (c ∷ q) n, h.1.0.0, base-plain (c ∷ q) n h.1))
    go pointer q n h =
        rw (append_assoc q (codes ".") n)
          (ground (arith, contains-dot (b'*' ∷ q) n, base-pointer q n h.1))
    go slice q n h =
        rw (append_assoc q (codes ".") n)
          (ground (arith, contains-dot (b'[' ∷ b']' ∷ q) n, base-slice q n h.1))
    go pointer_to_slice q n h =
        rw (append_assoc q (codes ".") n)
          (ground (arith, contains-dot (b'*' ∷ b'[' ∷ b']' ∷ q) n, base-pointer_to_slice q n h.1))
    go (values_by k) q n h =
        rw (append_assoc q (codes ".") n, append_assoc k (codes "]") (q ++ b'.' ∷ n))
          (ground (
            arith,
            contains-dot (codes "map[" ++ (k ++ b']' ∷ q)) n,
            base-values_by q n h.1 k h.2,
            append_assoc k (b']' ∷ q) (b'.' ∷ n),
          ))

-- The imports of a list that are called so and have that path.
abbrev pub imported_as : Text → List ImportInfo → Qualified → Bool
imported_as p imports t = any (λ imp. str_eq imp.path p && is_called t.qualifier imp) imports

any-is_called :
    (p q : Text) (imports : List ImportInfo)
    → q ≢ []
    → any (λ imp. str_eq imp.path p && is_import_of q imp) imports
      ≡ any (λ imp. str_eq imp.path p && is_called q imp) imports
unfolding any
any-is_called p q [] h = refl
any-is_called p q (imp ∷ imports) h =
    ground (arith, is_import_of-is_called q imp h, any-is_called p q imports h)

any-imported_as :
    (p : Text) (imports : List ImportInfo) (ts : List Qualified)
    → HaveWords ts
    → any (needs p imports) (map type_text ts) ≡ any (imported_as p imports) ts
unfolding any
any-imported_as p imports [] h = refl
any-imported_as p imports (t ∷ ts) h = ground (
  arith,
  type_package-qualifier t h.0,
  any-is_called p t.qualifier imports h.0.0,
  any-imported_as p imports ts h.1,
)

-- Of fields whose types name another package, alone, under a pointer, in a slice, under a pointer
-- to a slice, or as the values of a map with named keys: a path gets imported exactly when, for one
-- of them, it is the path of an import whose alias or last path element is the name of that
-- package.
pub collect_needed_imports-imported_as :
    (p : Text) (ts : List Qualified) (imports : List ImportInfo)
    → HaveWords ts
    → is_listed p (collect_needed_imports (map type_text ts) imports)
      ≡ any (imported_as p imports) ts
collect_needed_imports-imported_as p ts imports h =
    listed p (map type_text ts) imports ∙ any-imported_as p imports ts h
