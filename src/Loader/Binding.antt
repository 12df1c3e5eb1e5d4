-- ===== src/Loader/Binding.antt =====
-- What the server is bound to.
use ida_mcp.Prelude.{
  ◌≡◌, refl, inl, inr, Bool, true, false, not, ◌||◌, Option, none, some, if◌then◌else◌, Bool-cases,
}
use ida_mcp.Text.{Text, strip, is_empty}
use ida_mcp.Loader.{is_loopback, stored_host, get_host, Plugin, run}

-- A database that someone else made cannot bind the server to the network: without IDA_MCP_HOST the
-- host is a loopback one, whatever the IDB holds, where the default is.
pub get_host-loopback :
    (env : Text) (stored : Option Text) (default : Text)
    → is_empty (strip env) ≡ true
    → is_loopback default ≡ true
    → is_loopback (get_host env stored default) ≡ true
unfolding get_host stored_host
get_host-loopback env none default e h = simp e h
get_host-loopback env (some val) default e h = elim (Bool-cases (is_loopback val)) [
  | inl f ↦ kept f (is_empty val)
  | inr f ↦ given f (is_empty val)
]
  where
    kept :
        is_loopback val ≡ true
        → (b : Bool)
        → is_loopback (
            if is_empty (strip env)
            then if b || not (is_loopback val) then default else val
            else strip env)
          ≡ true
    kept f true = simp e h
    kept f false = simp (e, f) refl

    given :
        is_loopback val ≡ false
        → (b : Bool)
        → is_loopback (
            if is_empty (strip env)
            then if b || not (is_loopback val) then default else val
            else strip env)
          ≡ true
    given f true = simp e h
    given f false = simp (e, f) h

-- The host that the IDB holds is empty or a loopback one.
abbrev pub IsStoredSafely : Option Text → Type 0
IsStoredSafely none = Unit
IsStoredSafely (some host) = is_loopback host ≡ true

-- Starting and stopping the server never writes another host than a loopback one into the IDB.
pub run-IsStoredSafely :
    (succeeds : Bool) (p : Plugin)
    → IsStoredSafely p.stored
    → IsStoredSafely (run succeeds p).stored
unfolding run
run-IsStoredSafely false p h = h
run-IsStoredSafely true p h = elim (Bool-cases p.running) [
  | inl r ↦ simp r h
  | inr r ↦ elim (Bool-cases (is_loopback p.host)) [
    | inl l ↦ simp (r, l) refl
    | inr l ↦ simp (r, l) h
  ]
]
