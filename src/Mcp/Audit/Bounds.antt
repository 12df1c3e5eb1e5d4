-- ===== src/Mcp/Audit/Bounds.antt =====
-- How much of a call's arguments an audit record keeps.
use ida_mcp.Prelude.{
  ℕ, ◌+◌, ◌≤◌, ◌≡◌, refl, [], ◌∷◌, inl, inr, ltb, arith, length, take, length-take, Bool-cases,
}
use ida_mcp.Prelude.Dict.{Dict}
use ida_mcp.Text.{Text, lit}
use ida_mcp.Json.{Value, null, bool, int, float, str, arr, obj, fields, entries}
use ida_mcp.Jsonrpc.{Env}
use ida_mcp.Mcp.Audit.{
  text_of, clip, sanitize_from, sanitize_audit_args, audit_value_max, audit_blob_max,
}

-- The characters of the strings in a list of fields.
abbrev pub text_size : Value → ℕ
text_size (str t) = length t
text_size v = 0

abbrev pub size : Dict Text Value → ℕ
size [] = 0
size ((k, v) ∷ rest) = text_size v + size rest

-- The characters of an object's strings.
abbrev pub object_size : Value → ℕ
object_size (obj fs) = size (entries fs)
object_size v = 0

entries-fields : (d : Dict Text Value) → entries (fields d) ≡ d
entries-fields [] = refl
entries-fields ((k, v) ∷ d) = rw (entries-fields d) refl

module _ (env : Env) where
  sanitize_from-size :
      (total : ℕ) (d : Dict Text Value)
      → total ≤ audit_blob_max
      → total + size (sanitize_from env total d) ≤ audit_blob_max
  unfolding sanitize_from
  sanitize_from-size total [] h = omega arith
  sanitize_from-size total ((k, v) ∷ rest) h =
      elim (Bool-cases (ltb audit_blob_max (total + length (clip (text_of env v))))) [
        | inl far ↦ rw far (omega arith)
        | inr near ↦ rw near (
            omega (
              arith,
              sanitize_from-size (total + length (clip (text_of env v))) rest (ground arith),
            ))
      ]

  other-size :
      (t : Text)
      → object_size (obj (fields ((lit "_args", str (take audit_value_max t)) ∷ [])))
        ≤ audit_blob_max
  other-size t = omega (arith, length-take audit_value_max t)

  -- An audit record keeps at most 2048 characters of the arguments' values, whatever they are.
  pub sanitize-size : (v : Value) → object_size (sanitize_audit_args env v) ≤ audit_blob_max
  unfolding sanitize_audit_args
  sanitize-size (obj fs) =
      rw (entries-fields (sanitize_from env 0 (entries fs)))
        (omega (arith, sanitize_from-size 0 (entries fs) (omega arith)))
  sanitize-size null = other-size _
  sanitize-size (bool b) = other-size _
  sanitize-size (int i) = other-size _
  sanitize-size (float f) = other-size _
  sanitize-size (str t) = other-size _
  sanitize-size (arr vs) = other-size _
