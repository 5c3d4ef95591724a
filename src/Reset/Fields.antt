-- ===== src/Reset/Fields.antt =====
-- The code that resets one field, by the text of its type.
pub mod Kinds
pub mod Zeros
use go_musthave_metrics.Base.{
  Bool, true, false, ◌&&◌, Option, none, some, List, [], ◌∷◌, ◌++◌, any, if◌then◌else◌,
}
use go_musthave_metrics.Base.Text.{Text, codes, str_eq, has_prefix, contains, tail, trim_prefix}
use go_musthave_metrics.Reset.Syntax.{FieldInfo, StructInfo}

-- `if x.f != nil { … }`
abbrev pub guarded : Text → Text → Text
guarded access body = codes "if " ++ access ++ codes " != nil {\n\t" ++ body ++ codes "\n}"

pub is_builtin_type : Text → Bool
is_builtin_type typ = contains typ (codes "time.Time")

unfoldable generate_builtin_reset : Text → Text → Text
generate_builtin_reset access typ =
    if str_eq typ (codes "time.Time")
    then access ++ codes " = time.Time{}"
    else if has_prefix typ (codes "*") && contains typ (codes "time.Time")
    then guarded access (codes "*" ++ access ++ codes " = time.Time{}")
    else []

pub is_struct_type : Text → List StructInfo → Bool
unfolding any
is_struct_type typ all_structs = any (λ s. str_eq s.name typ) all_structs

pub should_call_reset : Text → List StructInfo → Bool
unfolding any trim_prefix
should_call_reset typ all_structs =
    let base_typ = trim_prefix typ (codes "*") in any (λ s. str_eq s.name base_typ) all_structs

abbrev primitive_types : List Text
primitive_types =
    codes "bool"
    ∷ codes "string"
    ∷ codes "int"
    ∷ codes "int8"
    ∷ codes "int16"
    ∷ codes "int32"
    ∷ codes "int64"
    ∷ codes "uint"
    ∷ codes "uint8"
    ∷ codes "uint16"
    ∷ codes "uint32"
    ∷ codes "uint64"
    ∷ codes "uintptr"
    ∷ codes "float32"
    ∷ codes "float64"
    ∷ codes "complex64"
    ∷ codes "complex128"
    ∷ codes "byte"
    ∷ codes "rune"
    ∷ []

pub is_primitive_type : Text → Bool
unfolding any
is_primitive_type typ = any (str_eq typ) primitive_types

pub get_zero_value : Text → Text
unfolding is_primitive_type
get_zero_value typ =
    if str_eq typ (codes "bool")
    then codes "false"
    else if str_eq typ (codes "string")
    then codes "\"\""
    else if is_primitive_type typ
    then codes "0"
    else codes "nil"

-- The part under `shouldCallReset`; `none` goes on to the switch.
pub call_reset : Text → Text → List StructInfo → Option Text
call_reset access typ all_structs =
    if should_call_reset typ all_structs
    then if has_prefix typ (codes "*")
      then if is_struct_type (tail typ) all_structs
        then some (guarded access (access ++ codes ".Reset()"))
        else none
      else some (access ++ codes ".Reset()")
    else none

-- The case of a pointer in the switch.
pub reset_pointee : Text → Text → Text
reset_pointee access base_type =
    if is_primitive_type base_type
    then guarded access (codes "*" ++ access ++ codes " = " ++ get_zero_value base_type)
    else if has_prefix base_type (codes "[]")
    then guarded access (codes "*" ++ access ++ codes " = (*" ++ access ++ codes ")[:0]")
    else if has_prefix base_type (codes "map")
    then guarded access (codes "clear(*" ++ access ++ codes ")")
    else []

-- The switch over the text of the type.
pub reset_by_prefix : Text → Text → Text
reset_by_prefix access typ =
    if has_prefix typ (codes "[]")
    then access ++ codes " = " ++ access ++ codes "[:0]"
    else if has_prefix typ (codes "map")
    then codes "clear(" ++ access ++ codes ")"
    else if has_prefix typ (codes "*")
    then reset_pointee access (tail typ)
    else if is_primitive_type typ
    then access ++ codes " = " ++ get_zero_value typ
    else []

pub generate_field_reset : FieldInfo → List StructInfo → Text
generate_field_reset field all_structs =
    let access = codes "x." ++ field.name in
    if is_builtin_type field.typ
    then generate_builtin_reset access field.typ
    else elim (call_reset access field.typ all_structs) [
      | some code ↦ code
      | none ↦ reset_by_prefix access field.typ
    ]
