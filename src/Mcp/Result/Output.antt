-- ===== src/Mcp/Result/Output.antt =====
-- What the text of a tool's return value becomes.
use ida_mcp.Prelude.{
  ℕ, ◌≤◌, ◌<◌, ◌≡◌, refl, ◌↔◌, ◌⊎◌, inl, inr, true, false, ◌&&◌, Option, none, some, arith, ltb,
  length, Bool-cases,
}
use ida_mcp.Text.{Text, lit, strip, is_empty}
use ida_mcp.Json.{Value, null, str, obj, Fields, get}
use ida_mcp.Jsonrpc.{Env}
use ida_mcp.Mcp.Result.{
  shape, shape_text, parse_structured, content_of, is_tool_error, is_error_text, too_large,
}

-- The error convention: an object whose "error" is a text that is not blank.
abbrev pub ReportsError : Value → Type 0
ReportsError v =
    (fs : Fields) × (t : Text) × (v ≡ obj fs)
    × (get (lit "error") fs ≡ some (str t))
    × (is_empty (strip t) ≡ false)

error_text_iff :
    (o : Option Value)
    → (is_error_text o ≡ true) ↔ ((t : Text) × (o ≡ some (str t)) × (is_empty (strip t) ≡ false))
unfolding is_error_text
error_text_iff (some (str t)) = (λ h. (t, refl, ground arith), λ (u, e, h). ground arith)
error_text_iff none = (λ h. absurd (cc h), λ (u, e, h). absurd (cc e))
error_text_iff _ = (λ h. absurd (cc h), λ (u, e, h). absurd (cc e))

is_tool_error_iff : (v : Value) → (is_tool_error v ≡ true) ↔ ReportsError v
unfolding is_tool_error
is_tool_error_iff (obj fs) = (
  λ h. let (t, e, p) = (error_text_iff (get (lit "error") fs)).0 h in (fs, t, refl, e, p),
  λ (gs, t, same, e, p). (error_text_iff (get (lit "error") fs)).1 (t, cc (same, e), p),
)
is_tool_error_iff null = (λ h. absurd (cc h), λ (gs, t, same, e, p). absurd (cc same))
is_tool_error_iff _ = (λ h. absurd (cc h), λ (gs, t, same, e, p). absurd (cc same))

module _ (env : Env) (cap : ℕ) (name v : Value) where
  -- With a cap, an answer that is no error is a text within the cap.
  pub shape-length :
      0 < cap
      → (shape env cap name v).is_error ≡ false
      → length (shape env cap name v).content ≤ cap
  unfolding shape shape_text too_large
  shape-length h ok_result = ground arith

  -- An answer is an error exactly when its text is beyond a cap, or the value, read as JSON where it
  -- is text, is an object whose "error" is a text that is not blank.
  pub shape-is_error_iff :
      ((shape env cap name v).is_error ≡ true)
      ↔ (((0 < cap) × (cap < length (content_of env v))) ⊎ ReportsError (parse_structured env v))
  unfolding shape shape_text too_large
  shape-is_error_iff =
      let convention = is_tool_error_iff (parse_structured env v) in
      elim (Bool-cases (ltb 0 cap && ltb cap (length (content_of env v)))) [
        | inl over ↦ rw over (λ h. inl (ground arith), λ h. refl)
        | inr within ↦ rw within (
          λ h. inr (convention.0 h),
          λ h. elim h [ inl far ↦ absurd (ground arith) | inr p ↦ convention.1 p ],
        )
      ]
