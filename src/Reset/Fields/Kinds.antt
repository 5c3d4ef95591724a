-- ===== src/Reset/Fields/Kinds.antt =====
-- The code for a field against the form of its type.
use go_musthave_metrics.Base.{
  ◌≡◌, refl, ◌∙◌, any, Option-cases, inl, inr, true, none, some, false, List, [], ◌∷◌, ◌++◌, All,
  arith, if◌then◌else◌,
}
use go_musthave_metrics.Base.Text.{
  Text, codes, str_eq, str_eq_iff, has_prefix, contains, trim_prefix, cut_prefix,
}
use go_musthave_metrics.Reset.Syntax.{
  Expr, ident, star, array_type, map_type, selector, interface_type, struct_type, other_expr,
  expr_to_string, StructInfo,
}
use go_musthave_metrics.Reset.Fields.Zeros.{
  zero_literal, is_primitive_type-zero_literal, get_zero_value-zero_literal,
}
use go_musthave_metrics.Reset.Fields.{
  guarded, is_builtin_type, is_struct_type, should_call_reset, is_primitive_type, get_zero_value,
  call_reset, reset_pointee, reset_by_prefix, generate_field_reset,
}

module _ (structs : List StructInfo) (access : Text) where
  -- A named type: a struct of the package has a method, a primitive type a zero value.
  pub of_name : Text → Text
  of_name typ =
      if any (λ s. str_eq s.name typ) structs
      then access ++ codes ".Reset()"
      else elim (zero_literal typ) [ none ↦ [] | some z ↦ access ++ codes " = " ++ z ]

  abbrev unless_nil : Text → Text
  unless_nil body = codes "if " ++ access ++ codes " != nil {\n\t" ++ body ++ codes "\n}"

  pub of_pointer : Text → Text
  of_pointer base =
      if any (λ s. str_eq s.name base) structs
      then unless_nil (access ++ codes ".Reset()")
      else elim (zero_literal base) [
        | none ↦ []
        | some z ↦ unless_nil (codes "*" ++ access ++ codes " = " ++ z)
      ]

  -- What a field of that type needs, by the form of the type.
  abbrev pub reset_of : Expr → Text
  reset_of (array_type false elt) = access ++ codes " = " ++ access ++ codes "[:0]"
  reset_of (map_type key value) = codes "clear(" ++ access ++ codes ")"
  reset_of (star (array_type false elt)) =
      unless_nil (codes "*" ++ access ++ codes " = (*" ++ access ++ codes ")[:0]")
  reset_of (star (map_type key value)) = unless_nil (codes "clear(*" ++ access ++ codes ")")
  reset_of (star e) = of_pointer (expr_to_string e)
  reset_of e = of_name (expr_to_string e)

module _ (structs : List StructInfo) (access : Text) where
  -- What the code does for a named type, and by the form of the type.
  abbrev named_reset : Text → Text
  named_reset typ =
      if is_struct_type typ structs
      then access ++ codes ".Reset()"
      else if is_primitive_type typ
      then access ++ codes " = " ++ get_zero_value typ
      else []

  abbrev pointer_reset : Text → Text
  pointer_reset base =
      if is_struct_type base structs
      then guarded access (access ++ codes ".Reset()")
      else if is_primitive_type base
      then guarded access (codes "*" ++ access ++ codes " = " ++ get_zero_value base)
      else []

  abbrev code_reset_of : Expr → Text
  code_reset_of (array_type false elt) = access ++ codes " = " ++ access ++ codes "[:0]"
  code_reset_of (map_type key value) = codes "clear(" ++ access ++ codes ")"
  code_reset_of (star (array_type false elt)) =
      guarded access (codes "*" ++ access ++ codes " = (*" ++ access ++ codes ")[:0]")
  code_reset_of (star (map_type key value)) =
      guarded access (codes "clear(*" ++ access ++ codes ")")
  code_reset_of (star e) = pointer_reset (expr_to_string e)
  code_reset_of e = named_reset (expr_to_string e)

-- A type that is written by a name does not begin as a pointer, slice or map type does.
abbrev Named : Text → Type 0
Named t =
    (has_prefix t (codes "*") ≡ false)
    × (has_prefix t (codes "[]") ≡ false)
    × (has_prefix t (codes "map") ≡ false)

abbrev IsPlain : Expr → Type 0
IsPlain (ident n) = Named n
IsPlain (selector x n) = Named (expr_to_string (selector x n))
IsPlain (star e) = IsPlain e
IsPlain _ = Unit {0}

-- What identifiers guarantee of the names of the package's structs.
abbrev AreNames : List StructInfo → Type 0
AreNames =
    All (λ s. (has_prefix s.name (codes "[]") ≡ false) × (has_prefix s.name (codes "map[") ≡ false))

module _ (structs : List StructInfo) where
  should_call_by_name :
      (t : Text)
      → has_prefix t (codes "*") ≡ false
      → should_call_reset t structs ≡ is_struct_type t structs
  unfolding should_call_reset is_struct_type
  should_call_by_name t h = rw (h, trim_prefix) refl

  star_should_call :
      (t : Text) → should_call_reset (codes "*" ++ t) structs ≡ is_struct_type t structs
  unfolding should_call_reset is_struct_type has_prefix cut_prefix
  star_should_call t = refl

slice_absent :
    (t : Text) (structs : List StructInfo)
    → AreNames structs
    → is_struct_type (codes "[]" ++ t) structs ≡ false
unfolding is_struct_type has_prefix
slice_absent t [] h = refl
slice_absent t (s ∷ structs) h =
    ground (arith, str_eq_iff s.name (codes "[]" ++ t), slice_absent t structs h.1)

map_absent :
    (t : Text) (structs : List StructInfo)
    → AreNames structs
    → is_struct_type (codes "map[" ++ t) structs ≡ false
unfolding is_struct_type has_prefix
map_absent t [] h = refl
map_absent t (s ∷ structs) h =
    ground (arith, str_eq_iff s.name (codes "map[" ++ t), map_absent t structs h.1)

brackets_not_primitive :
    (t : Text)
    → (is_primitive_type (codes "[]" ++ t) ≡ false)
      × (is_primitive_type (codes "map[" ++ t) ≡ false)
unfolding is_primitive_type str_eq
brackets_not_primitive t = (refl, refl)

star_not_primitive : (t : Text) → is_primitive_type (codes "*" ++ t) ≡ false
unfolding is_primitive_type str_eq
star_not_primitive t = refl

module _ (structs : List StructInfo) (names : AreNames structs) (access : Text) where
  code_of : Text → Text
  code_of t = elim (call_reset access t structs) [
    | some code ↦ code
    | none ↦ reset_by_prefix access t
  ]

  code_of-by_name : (t : Text) → Named t → code_of t ≡ named_reset structs access t
  unfolding code_of call_reset reset_by_prefix
  code_of-by_name t h = ground (arith, should_call_by_name structs t h.0)

  code_of-array_type :
      (t : Text) → code_of (codes "[]" ++ t) ≡ access ++ codes " = " ++ access ++ codes "[:0]"
  unfolding code_of call_reset reset_by_prefix has_prefix
  code_of-array_type t =
      ground
        (arith, should_call_by_name structs (codes "[]" ++ t) refl, slice_absent t structs names)

  code_of-map_type :
      (t : Text) → code_of (codes "map[" ++ t) ≡ codes "clear(" ++ access ++ codes ")"
  unfolding code_of call_reset reset_by_prefix has_prefix
  code_of-map_type t =
      ground
        (arith, should_call_by_name structs (codes "map[" ++ t) refl, map_absent t structs names)

  -- A pointer, where the text of its base is neither a slice nor a map type.
  code_of-star :
      (t : Text)
      → has_prefix t (codes "[]") ≡ false
      → has_prefix t (codes "map") ≡ false
      → code_of (codes "*" ++ t) ≡ pointer_reset structs access t
  unfolding code_of call_reset reset_by_prefix reset_pointee has_prefix
  code_of-star t b m = ground (arith, star_should_call structs t)

  code_of-star_array_type :
      (t : Text)
      → code_of (codes "*" ++ codes "[]" ++ t)
        ≡ guarded access (codes "*" ++ access ++ codes " = (*" ++ access ++ codes ")[:0]")
  unfolding code_of call_reset reset_by_prefix reset_pointee has_prefix
  code_of-star_array_type t = ground (
    arith,
    star_should_call structs (codes "[]" ++ t),
    slice_absent t structs names,
    (brackets_not_primitive t).0,
  )

  code_of-star_map_type :
      (t : Text)
      → code_of (codes "*" ++ codes "map[" ++ t)
        ≡ guarded access (codes "clear(*" ++ access ++ codes ")")
  unfolding code_of call_reset reset_by_prefix reset_pointee has_prefix
  code_of-star_map_type t = ground (
    arith,
    star_should_call structs (codes "map[" ++ t),
    map_absent t structs names,
    (brackets_not_primitive t).1,
  )

  code_of-code_reset_of :
      (e : Expr) → IsPlain e → code_of (expr_to_string e) ≡ code_reset_of structs access e
  unfolding expr_to_string has_prefix
  code_of-code_reset_of (ident n) h = code_of-by_name n h
  code_of-code_reset_of (selector x n) h = code_of-by_name (expr_to_string (selector x n)) h
  code_of-code_reset_of (array_type false elt) h = code_of-array_type (expr_to_string elt)
  code_of-code_reset_of (array_type true elt) h =
      code_of-by_name (expr_to_string (array_type true elt)) (refl, refl, refl)
  code_of-code_reset_of (map_type k v) h =
      code_of-map_type (expr_to_string k ++ codes "]" ++ expr_to_string v)
  code_of-code_reset_of interface_type h =
      code_of-by_name (expr_to_string interface_type) (refl, refl, refl)
  code_of-code_reset_of struct_type h =
      code_of-by_name (expr_to_string struct_type) (refl, refl, refl)
  code_of-code_reset_of other_expr h =
      code_of-by_name (expr_to_string other_expr) (refl, refl, refl)
  code_of-code_reset_of (star (ident n)) h = code_of-star n h.1 h.2
  code_of-code_reset_of (star (selector x n)) h =
      code_of-star (expr_to_string (selector x n)) h.1 h.2
  code_of-code_reset_of (star (array_type false elt)) h =
      code_of-star_array_type (expr_to_string elt)
  code_of-code_reset_of (star (array_type true elt)) h =
      code_of-star (expr_to_string (array_type true elt)) refl refl
  code_of-code_reset_of (star (map_type k v)) h =
      code_of-star_map_type (expr_to_string k ++ codes "]" ++ expr_to_string v)
  code_of-code_reset_of (star interface_type) h = code_of-star (codes "interface{}") refl refl
  code_of-code_reset_of (star struct_type) h = code_of-star (codes "struct{}") refl refl
  code_of-code_reset_of (star other_expr) h = code_of-star [] refl refl
  code_of-code_reset_of (star (star e)) h = code_of-star (expr_to_string (star e)) refl refl

module _ (structs : List StructInfo) (access : Text) where
  named_reset-of_name : (t : Text) → named_reset structs access t ≡ of_name structs access t
  unfolding is_struct_type of_name
  named_reset-of_name t = elim (Option-cases (zero_literal t)) [
    | inl e ↦ ground (arith, e, is_primitive_type-zero_literal t)
    | inr (z, e) ↦
        ground (arith, e, is_primitive_type-zero_literal t, get_zero_value-zero_literal t z e)
  ]

  pointer_reset-of_pointer :
      (t : Text) → pointer_reset structs access t ≡ of_pointer structs access t
  unfolding is_struct_type of_pointer
  pointer_reset-of_pointer t = elim (Option-cases (zero_literal t)) [
    | inl e ↦ ground (arith, e, is_primitive_type-zero_literal t)
    | inr (z, e) ↦
        ground (arith, e, is_primitive_type-zero_literal t, get_zero_value-zero_literal t z e)
  ]

  code_reset_of-reset_of : (e : Expr) → code_reset_of structs access e ≡ reset_of structs access e
  code_reset_of-reset_of (ident n) = named_reset-of_name _
  code_reset_of-reset_of (selector x n) = named_reset-of_name _
  code_reset_of-reset_of (array_type false elt) = refl
  code_reset_of-reset_of (array_type true elt) = named_reset-of_name _
  code_reset_of-reset_of (map_type k v) = refl
  code_reset_of-reset_of interface_type = named_reset-of_name _
  code_reset_of-reset_of struct_type = named_reset-of_name _
  code_reset_of-reset_of other_expr = named_reset-of_name _
  code_reset_of-reset_of (star (ident n)) = pointer_reset-of_pointer _
  code_reset_of-reset_of (star (selector x n)) = pointer_reset-of_pointer _
  code_reset_of-reset_of (star (array_type false elt)) = refl
  code_reset_of-reset_of (star (array_type true elt)) = pointer_reset-of_pointer _
  code_reset_of-reset_of (star (map_type k v)) = refl
  code_reset_of-reset_of (star interface_type) = pointer_reset-of_pointer _
  code_reset_of-reset_of (star struct_type) = pointer_reset-of_pointer _
  code_reset_of-reset_of (star other_expr) = pointer_reset-of_pointer _
  code_reset_of-reset_of (star (star e)) = pointer_reset-of_pointer _

-- For structs whose names begin with neither `[]` nor `map[`, and a type that mentions no time.Time
-- and whose name, if it is one, begins with no star, no `[]` and no `map`, also under pointers, the
-- generator looks at the text of the type and does what its form asks for: it empties a slice,
-- clears a map, calls the method of a struct of the package, sets a primitive type to its zero
-- value, does the same under a nil check behind one pointer, and leaves every other type alone.
pub generate_field_reset-reset_of :
    (structs : List StructInfo) (name tag : Text) (e : Expr)
    → AreNames structs
    → IsPlain e
    → contains (expr_to_string e) (codes "time.Time") ≡ false
    → generate_field_reset (record { name = name; typ = expr_to_string e; tag = tag }) structs
      ≡ reset_of structs (codes "x." ++ name) e
unfolding generate_field_reset is_builtin_type
generate_field_reset-reset_of structs name tag e names plain h = rw h (
    unfold code_of in
    code_of-code_reset_of structs names (codes "x." ++ name) e plain
    ∙ code_reset_of-reset_of structs (codes "x." ++ name) e)
