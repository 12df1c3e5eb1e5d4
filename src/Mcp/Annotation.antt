-- ===== src/Mcp/Annotation.antt =====
-- The annotations of a tool's parameters: what they say of the JSON schema, and the coercion of
-- quoted scalars to them (mcp.py: _unwrap_annotation, _json_type_for, _coerce_scalar).
pub mod Typed
use ida_mcp.Prelude.{
  ℕ, suc, ◌*◌, map, ◌&&◌, ◌/◌, ◌%◌, ◌^◌, ◌≡◌, refl, Bool, true, false, Option, none, some, List, [],
  ◌∷◌, if◌then◌else◌, ◌==◌, contains, nat_eq, text_eq,
}
use ida_mcp.Prelude.Int.{ℤ, pos, negsuc, minus}
use ida_mcp.Text.{Text, lit, strip, lower}
use ida_mcp.Json.{Float, dyadic, infinite, nan, Value, null, bool, int, float, str, arr, obj}
use ida_mcp.Number.{parse_int}

mutual
  pub data Annotation : Type 0 where
    int_type float_type bool_type str_type none_type : Annotation
    class_type : Text → Annotation  -- any other type
    annotated : Annotation → List (Option Text) → Annotation  -- Annotated[T, ...]; some: a string
    union : Arms → Annotation  -- Union[...], T | None
    literal : List Value → Annotation  -- Literal[...]

  pub data Arms : Type 0 where
    no_arm : Arms
    arm : Annotation → Arms → Arms

abbrev first_text : List (Option Text) → Option Text
first_text [] = none
first_text (some t ∷ rest) = some t
first_text (none ∷ rest) = first_text rest

-- The first arm that is not None; with no such arm the annotation stays.
abbrev first_arm : Annotation → Arms → Annotation
first_arm whole no_arm = whole
first_arm whole (arm none_type rest) = first_arm whole rest
first_arm whole (arm a rest) = a

-- type(v)
abbrev type_of : Value → Annotation
type_of null = none_type
type_of (bool b) = bool_type
type_of (int i) = int_type
type_of (float f) = float_type
type_of (str t) = str_type
type_of (arr vs) = class_type (lit "list")
type_of (obj fs) = class_type (lit "dict")

abbrev same_type : Annotation → Annotation → Bool
same_type int_type int_type = true
same_type float_type float_type = true
same_type bool_type bool_type = true
same_type str_type str_type = true
same_type none_type none_type = true
same_type (class_type a) (class_type b) = a == b
same_type _ _ = false

abbrev all_of_type : Annotation → List Value → Bool
all_of_type a [] = true
all_of_type a (v ∷ vs) = same_type (type_of v) a && all_of_type a vs

-- The one type of the allowed values, or str.
abbrev literal_type : List Value → Annotation
literal_type [] = str_type
literal_type (v ∷ vs) = if all_of_type (type_of v) vs then type_of v else str_type

abbrev peel_annotated : Annotation → Annotation × Option Text
peel_annotated (annotated a extras) = (a, first_text extras)
peel_annotated a = (a, none)

abbrev peel_union : Annotation → Annotation
peel_union (union arms) = first_arm (union arms) arms
peel_union a = a

abbrev peel_literal : Annotation → Annotation × Option (List Value)
peel_literal (literal vs) = (literal_type vs, some vs)
peel_literal a = (a, none)

-- The inner type, the enum and the description.
unfoldable pub unwrap_annotation : Annotation → Annotation × Option (List Value) × Option Text
unwrap_annotation a =
    let (b, desc) = peel_annotated a in
    let (inner, enum) = peel_literal (peel_union b) in (inner, enum, desc)

unfoldable pub json_type_for : Annotation → Text
json_type_for int_type = lit "integer"
json_type_for float_type = lit "number"
json_type_for bool_type = lit "boolean"
json_type_for _ = lit "string"

true_literals : List Text
true_literals = map lit ("true" ∷ "1" ∷ "yes" ∷ "y" ∷ "on" ∷ [])

false_literals : List Text
false_literals = map lit ("false" ∷ "0" ∷ "no" ∷ "n" ∷ "off" ∷ [])

-- float.is_integer, with int(num)
unfoldable pub float_integer : Float → Option ℤ
float_integer (dyadic (pos n) e) = if n % 2 ^ e == 0 then some (pos (n / 2 ^ e)) else none
float_integer (dyadic (negsuc n) e) =
    if suc n % 2 ^ e == 0 then some (minus (suc n / 2 ^ e)) else none
float_integer _ = none

-- float(text), which raises ValueError on other text, is a parameter.
module _ (parse_float : Text → Option Float) where
  coerce_bool : Text → Value → Value
  unfolding true_literals false_literals
  coerce_bool t v =
      if contains true_literals t
      then bool true
      else if contains false_literals t
      then bool false
      else v

  coerce_int : Text → Value → Value
  unfolding float_integer
  coerce_int t v = elim (parse_int t) [
    | some i ↦ int i
    | none ↦ elim (parse_float t) [
      | none ↦ v
      | some num ↦ elim (float_integer num) [ some i ↦ int i | none ↦ v ]
    ]
  ]

  coerce_float : Text → Value → Value
  coerce_float t v = elim (parse_float t) [ none ↦ v | some num ↦ float num ]

  coerce_to : Annotation → Text → Value → Value
  unfolding coerce_bool coerce_int coerce_float
  coerce_to bool_type t v = coerce_bool (lower t) v
  coerce_to int_type t v = coerce_int t v
  coerce_to float_type t v = coerce_float t v
  coerce_to _ t v = v

  unfoldable pub coerce_scalar : Value → Annotation → Value
  unfolding coerce_to unwrap_annotation
  coerce_scalar (str t) a = coerce_to (unwrap_annotation a).0 (strip t) (str t)
  coerce_scalar v a = v
