-- ===== src/Reset/Fields/Zeros.antt =====
-- The zero values of the primitive types against `isPrimitiveType` and `getZeroValue`.
use go_musthave_metrics.Base.{
  ◌≡◌, any, Bool, true, false, Option, none, some, List, [], ◌∷◌, arith, if◌then◌else◌,
}
use go_musthave_metrics.Base.Text.{Text, codes, str_eq}
use go_musthave_metrics.Reset.Fields.{is_primitive_type, get_zero_value}

-- The zero value of a primitive type, as it is written in Go.
abbrev number_types : List Text
number_types =
    codes "int"
    ∷ codes "int8"
    ∷ codes "int16"
    ∷ codes "int32"
    ∷ codes "int64"
    ∷ codes "uint"
    ∷ codes "uint8"
    ∷ codes "uint16"
    ∷ codes "uint32"
    ∷ codes "uint64"
    ∷ codes "uintptr"
    ∷ codes "float32"
    ∷ codes "float64"
    ∷ codes "complex64"
    ∷ codes "complex128"
    ∷ codes "byte"
    ∷ codes "rune"
    ∷ []

pub zero_literal : Text → Option Text
zero_literal t =
    if str_eq t (codes "bool")
    then some (codes "false")
    else if str_eq t (codes "string")
    then some (codes "\"\"")
    else if any (str_eq t) number_types
    then some (codes "0")
    else none

abbrev pub is_some : Option Text → Bool
is_some none = false
is_some (some t) = true

pub is_primitive_type-zero_literal : (t : Text) → is_primitive_type t ≡ is_some (zero_literal t)
unfolding is_primitive_type zero_literal any
is_primitive_type-zero_literal t = ground arith

pub get_zero_value-zero_literal : (t z : Text) → zero_literal t ≡ some z → get_zero_value t ≡ z
unfolding is_primitive_type get_zero_value zero_literal any
get_zero_value-zero_literal t z h = ground (arith, h)
