-- ===== src/Hooks.antt =====
-- The tracer hooks (api_hooks.py: _next_hook_id, _log, _install, remove_hooks). A hook is named by its
-- identifier and its type; what IDA answers to its making and hooking is given.
pub mod Table
use ida_mcp.Prelude.{
  ℕ, suc, ◌+◌, ◌-◌, Bool, true, false, not, ◌||◌, Option, none, some, List, [], ◌∷◌, ◌++◌, map,
  keep, ltb, length, drop, if◌then◌else◌, ◌==◌, contains, nat_eq, text_eq,
}
use ida_mcp.Text.{Text, lit}

abbrev pub events_per_hook : ℕ
events_per_hook = 200

-- An entry of _HOOKS; its identifier is the type and a number.
pub record Hook : Type 0 where
  pub hook_type : Text
  pub number : ℕ
  pub events : List Text
  pub event_count : ℕ

pub record Hooks : Type 0 where
  pub sequence : ℕ
  pub table : List Hook

-- What making and hooking a tracer do: the maker raises, hook() raises or returns false, or it holds.
pub data Attempt : Type 0 where
  not_made not_hooked hooked : Attempt

-- deque(maxlen=200).append
unfoldable pub append_event : List Text → Text → List Text
append_event events event =
    let grown = events ++ event ∷ [] in drop (length grown - events_per_hook) grown

unfoldable pub logged : Text → Hook → Hook
unfolding append_event
logged event h = record h { events = append_event h.events event; event_count = h.event_count + 1 }

-- _log, to the hook of that number, if it is there
unfoldable pub log : ℕ → Text → Hooks → Hooks
log number event s = record s {
  table = map (λ h. if h.number == number then logged event h else h) s.table;
}

abbrev pub tracers : List Text
tracers = lit "idb" ∷ lit "hexrays" ∷ lit "debugger" ∷ []

-- _install, from the making of the tracer on: a hook of the type that was there before is removed.
pub replaced : Text → Attempt → Hooks → Bool × Hooks
replaced kind not_made s = (false, record s { sequence = suc s.sequence })
replaced kind not_hooked s = (
  false,
  record { sequence = suc s.sequence; table = keep (λ h. not (h.hook_type == kind)) s.table },
)
replaced kind hooked s =
    let fresh : Hook = record {
      hook_type = kind;
      number = suc s.sequence;
      events = [];
      event_count = 0;
    } in
    (
      true,
      record {
        sequence = suc s.sequence;
        table = keep (λ h. not (h.hook_type == kind)) s.table ++ fresh ∷ [];
      },
    )

-- _install: whether it succeeds, and the hooks after it
unfoldable pub install : Text → Attempt → Hooks → Bool × Hooks
install kind attempt s = if contains tracers kind then replaced kind attempt s else (false, s)

-- remove_hooks; none: all of them
unfoldable pub remove_hooks : Option ℕ → Hooks → Hooks
remove_hooks none s = record s { table = [] }
remove_hooks (some number) s = record s { table = keep (λ h. not (h.number == number)) s.table }

-- The calls that change the table, in their order.
pub data Operation : Type 0 where
  installs : Text → Attempt → Operation
  logs : ℕ → Text → Operation
  removes : Option ℕ → Operation

unfoldable pub apply : Operation → Hooks → Hooks
unfolding install log remove_hooks
apply (installs kind attempt) s = (install kind attempt s).1
apply (logs number event) s = log number event s
apply (removes target) s = remove_hooks target s

unfoldable pub apply_all : List Operation → Hooks → Hooks
unfolding apply
apply_all [] s = s
apply_all (o ∷ os) s = apply_all os (apply o s)
