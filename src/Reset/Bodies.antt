-- ===== src/Reset/Bodies.antt =====
-- The body of a `Reset` method: the code of every field, in order, one tab further in.
pub mod Lines
use go_musthave_metrics.Base.{List, [], ◌∷◌, ◌++◌, map, if◌then◌else◌}
use go_musthave_metrics.Base.Text.{Text, codes, str_eq, split, join}
use go_musthave_metrics.Reset.Syntax.{FieldInfo, StructInfo}
use go_musthave_metrics.Reset.Fields.{generate_field_reset}

pub indent_code : Text → Text → Text
indent_code code indent =
    if str_eq code []
    then []
    else join (codes "\n") (map (λ line. indent ++ line) (split b'\n' code))

-- The loop over the fields.
pub body_lines : List FieldInfo → List StructInfo → List Text
body_lines [] all_structs = []
body_lines (field ∷ fields) all_structs =
    let rest = body_lines fields all_structs in
    let code = generate_field_reset field all_structs in
    if str_eq field.name []
    then rest
    else if str_eq code []
    then rest
    else indent_code code (codes "\t") ∷ rest

pub generate_struct_reset_body : StructInfo → List StructInfo → Text
unfolding body_lines
generate_struct_reset_body struct_info all_structs =
    join (codes "\n") (body_lines struct_info.fields all_structs)
