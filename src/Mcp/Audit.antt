-- ===== src/Mcp/Audit.antt =====
-- The audit trail of the calls that change the database (mcp.py: _sanitize_audit_args and
-- McpServer._write_audit). A record is what is handed to the file; its time stamp is left out.
pub mod Bounds
use ida_mcp.Prelude.{
  ℕ, ◌+◌, Bool, true, false, Option, none, some, List, [], ◌∷◌, ◌++◌, ltb, if◌then◌else◌, length,
  take,
}
use ida_mcp.Prelude.Dict.{Dict}
use ida_mcp.Text.{Text, lit}
use ida_mcp.Json.{Value, bool, str, obj, Fields, fields, entries}
use ida_mcp.Exec.{Exec, modify}
use ida_mcp.State.{State, AuditRecord}
use ida_mcp.Jsonrpc.{Env}

abbrev pub audit_value_max : ℕ
audit_value_max = 200

abbrev pub audit_blob_max : ℕ
audit_blob_max = 2048

abbrev ellipsis : Text
ellipsis = 0x2026 ∷ []

unfoldable pub clip : Text → Text
clip t = if ltb audit_value_max (length t) then take audit_value_max t ++ ellipsis else t

module _ (env : Env) where
  abbrev text_of : Value → Text
  text_of (str t) = t
  text_of v = env.dumps_spaced v

  -- The loop over args.items(), with the length so far.
  unfoldable pub sanitize_from : ℕ → Dict Text Value → Dict Text Value
  unfolding clip
  sanitize_from total [] = []
  sanitize_from total ((k, v) ∷ rest) =
      let s = clip (text_of v) in
      let total' = total + length s in
      let more = sanitize_from total' rest in
      if ltb audit_blob_max total' then (lit "_truncated", bool true) ∷ [] else (k, str s) ∷ more

  unfoldable pub sanitize_audit_args : Value → Value
  unfolding sanitize_from
  sanitize_audit_args (obj fs) = obj (fields (sanitize_from 0 (entries fs)))
  sanitize_audit_args v =
      obj (fields ((lit "_args", str (take audit_value_max (env.to_str v))) ∷ []))

  unfoldable pub append_record : Option Text → Value → Value → Bool → State → State
  unfolding sanitize_audit_args
  append_record none name args succeeded s = s
  append_record (some []) name args succeeded s = s
  append_record (some path) name args succeeded s = record s {
    audit =
        s.audit
        ++ record { tool = name; succeeded = succeeded; args = sanitize_audit_args args } ∷ [];
  }

  unfoldable pub write_audit : Option Text → Value → Value → Bool → Exec State Unit
  write_audit path name args succeeded = modify (append_record path name args succeeded)
