-- ===== src/Mcp/Annotation/Typed.antt =====
-- What coercion makes of a quoted scalar.
use ida_mcp.Prelude.{◌≡◌, refl, ◌⊎◌, inl, inr, Option, contains, text_eq, Bool-cases, Option-cases}
use ida_mcp.Text.{Text, lit, lower, strip}
use ida_mcp.Number.{parse_int}
use ida_mcp.Json.{Float, Value, null, bool, int, float, str, arr, obj}
use ida_mcp.Mcp.Annotation.{
  Annotation, int_type, float_type, bool_type, str_type, unwrap_annotation, json_type_for,
  coerce_scalar, coerce_to, coerce_bool, coerce_int, coerce_float, true_literals, false_literals,
  float_integer,
}

-- The JSON schema's name of a value's type.
abbrev pub json_type_of : Value → Text
json_type_of null = lit "null"
json_type_of (bool b) = lit "boolean"
json_type_of (int i) = lit "integer"
json_type_of (float f) = lit "number"
json_type_of (str t) = lit "string"
json_type_of (arr vs) = lit "array"
json_type_of (obj fs) = lit "object"

module _ (parse_float : Text → Option Float) where
  coerce_bool-typed :
      (t : Text) (v : Value)
      → (coerce_bool parse_float t v ≡ v)
        ⊎ (json_type_of (coerce_bool parse_float t v) ≡ lit "boolean")
  unfolding coerce_bool
  coerce_bool-typed t v = elim (Bool-cases (contains true_literals t)) [
    | inl e ↦ simp e (inr refl)
    | inr e ↦ elim (Bool-cases (contains false_literals t)) [
      | inl f ↦ simp (e, f) (inr refl)
      | inr f ↦ simp (e, f) (inl refl)
    ]
  ]

  coerce_int-typed :
      (t : Text) (v : Value)
      → (coerce_int parse_float t v ≡ v)
        ⊎ (json_type_of (coerce_int parse_float t v) ≡ lit "integer")
  unfolding coerce_int
  coerce_int-typed t v = elim (Option-cases (parse_int t)) [
    | inr (i, e) ↦ rw (e, coerce_int) (inr refl)
    | inl e ↦ elim (Option-cases (parse_float t)) [
      | inl f ↦ rw (e, f, coerce_int) (inl refl)
      | inr (num, f) ↦ elim (Option-cases (float_integer num)) [
        | inl g ↦ rw (e, f, g, coerce_int) (inl refl)
        | inr (i, g) ↦ rw (e, f, g, coerce_int) (inr refl)
      ]
    ]
  ]

  coerce_float-typed :
      (t : Text) (v : Value)
      → (coerce_float parse_float t v ≡ v)
        ⊎ (json_type_of (coerce_float parse_float t v) ≡ lit "number")
  unfolding coerce_float
  coerce_float-typed t v = elim (Option-cases (parse_float t)) [
    | inl e ↦ rw (e, coerce_float) (inl refl)
    | inr (num, e) ↦ rw (e, coerce_float) (inr refl)
  ]

  coerce_to-typed :
      (a : Annotation) (t : Text) (v : Value)
      → (coerce_to parse_float a t v ≡ v)
        ⊎ (json_type_of (coerce_to parse_float a t v) ≡ json_type_for a)
  unfolding coerce_to json_type_for
  coerce_to-typed bool_type t v = coerce_bool-typed (lower t) v
  coerce_to-typed int_type t v = coerce_int-typed t v
  coerce_to-typed float_type t v = coerce_float-typed t v
  coerce_to-typed str_type t v = inl refl
  coerce_to-typed _ t v = inl refl

  -- Coercion leaves an argument as it is, or gives a value of the type that the tool's schema announces.
  pub coerce_scalar-typed :
      (v : Value) (a : Annotation)
      → (coerce_scalar parse_float v a ≡ v)
        ⊎ (json_type_of (coerce_scalar parse_float v a) ≡ json_type_for (unwrap_annotation a).0)
  unfolding coerce_scalar
  coerce_scalar-typed (str t) a = coerce_to-typed (unwrap_annotation a).0 (strip t) (str t)
  coerce_scalar-typed null a = inl refl
  coerce_scalar-typed _ a = inl refl
