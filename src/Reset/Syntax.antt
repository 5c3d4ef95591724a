-- ===== src/Reset/Syntax.antt =====
-- What the generator reads of go/ast, its own records of model.go, and `exprToString`.
use go_musthave_metrics.Base.{Bool, true, false, List, ◌++◌}
use go_musthave_metrics.Base.Text.{Text, codes}

-- The kinds of ast.Expr that `exprToString` tells apart. The flag of an array is `e.Len != nil`.
pub data Expr : Type 0 where
  ident : Text → Expr
  star : Expr → Expr
  array_type : Bool → Expr → Expr
  map_type : Expr → Expr → Expr
  selector : Expr → Text → Expr
  interface_type struct_type other_expr : Expr

unfoldable pub expr_to_string : Expr → Text
expr_to_string (ident name) = name
expr_to_string (star x) = codes "*" ++ expr_to_string x
expr_to_string (array_type false elt) = codes "[]" ++ expr_to_string elt
expr_to_string (array_type true elt) = codes "[...]" ++ expr_to_string elt
expr_to_string (map_type key value) =
    codes "map[" ++ expr_to_string key ++ codes "]" ++ expr_to_string value
expr_to_string (selector x sel) = expr_to_string x ++ codes "." ++ sel
expr_to_string interface_type = codes "interface{}"
expr_to_string struct_type = codes "struct{}"
expr_to_string other_expr = codes ""

pub record FieldInfo : Type 0 where
  pub name : Text
  pub typ : Text
  pub tag : Text

pub record StructInfo : Type 0 where
  pub name : Text
  pub fields : List FieldInfo

pub record ImportInfo : Type 0 where
  pub name : Text
  pub path : Text

pub record PackageInfo : Type 0 where
  pub name : Text
  pub structs : List StructInfo
  pub imports : List ImportInfo
