-- ===== src/Tools/Script.antt =====
-- Running a client's Python (api_python.py: _pick_result, _collect_ida_messages, _run_code; server.py:
-- execute_script). What the code does is a parameter: parts that read and write what they see, and may
-- raise. So are the traceback and the hint that is put behind it.
pub mod Restored
use mathlib.Core.List.{reverse}
use ida_mcp.Prelude.{
  ℕ, ◌-◌, Bool, true, false, Option, none, some, List, [], ◌∷◌, ◌++◌, drop, length, leb,
  if◌then◌else◌, ◌==◌, text_eq,
}
use ida_mcp.Prelude.Dict.{Dict, lookup, insert}
use ida_mcp.Text.{Text, lit, strip, lstrip, join, is_empty}
use ida_mcp.Exec.{
  Raised, tool_error, interrupt, exit, is_exception, Result, ok, err, Exec, pure, lift, gets,
  modify, continue, ◌>>=◌, ◌>>◌,
}
use ida_mcp.Tools.Limits.{format_result}

-- What sys.stdout and sys.stderr are bound to.
pub data Handle : Type 0 where
  outer : ℕ → Handle
  captured_out captured_err : Handle

pub record World : Type 0 where
  pub stdout : Handle
  pub stderr : Handle
  pub out_text : Text  -- what the two buffers hold
  pub err_text : Text
  pub messages : Option (List Text)  -- msg_get_lines; none: it raises

-- The names that were bound, with str() of their values.
abbrev pub Names : Type 0
Names = Dict Text Text

-- What ast.parse makes of the code.
pub data Shape : Type 0 where
  malformed empty single_expression trailing_expression statements : Shape

pub record Code : Type 0 where
  pub parsed_as : Shape
  pub exec_whole : Exec World Names
  pub eval_whole : Exec World Text
  pub exec_front : Exec World Names
  pub eval_last : Names → Exec World Text
  pub globals : Names

pub record Output : Type 0 where
  pub result : Text
  pub stdout : Text
  pub stderr : Text
  pub error : Option Text

abbrev pub last_value : Names → Option Text
last_value [] = none
last_value ((k, v) ∷ []) = some v
last_value (a ∷ b ∷ names) = last_value (b ∷ names)

unfoldable pub pick_result : Names → Names → Option Text
pick_result locals globals = elim (lookup (lit "result") locals) [
  | some v ↦ some v
  | none ↦ elim (lookup (lit "__result__") globals) [ some v ↦ some v | none ↦ last_value locals ]
]

-- exec_globals.update(exec_locals)
abbrev pub update : Names → Names → Names
update globals [] = globals
update globals ((k, v) ∷ names) = update (insert k v globals) names

-- The lines behind the first `pre_count`.
unfoldable pub collect_ida_messages : ℕ → Option (List Text) → Text
collect_ida_messages pre_count none = []
collect_ida_messages pre_count (some lines) = join (lit "\n") (drop pre_count lines)

unfoldable pub count_messages : Option (List Text) → ℕ
count_messages none = 0
count_messages (some lines) = length lines

unfoldable pub picked : Code → Names → Option Text
unfolding pick_result
picked c locals = pick_result locals (update c.globals locals)

-- The `try` block up to the result.
unfoldable pub evaluate : Code → Shape → Exec World (Option Text)
unfolding picked
evaluate c malformed = c.exec_whole >>= λ locals. pure (picked c locals)
evaluate c empty = pure none
evaluate c single_expression = c.eval_whole >>= λ v. pure (some v)
evaluate c trailing_expression =
    c.exec_front >>= λ locals. c.eval_last locals >>= λ v. pure (some v)
evaluate c statements = c.exec_whole >>= λ locals. pure (picked c locals)

-- s.rstrip()
unfoldable pub rstrip : Text → Text
rstrip t = reverse (lstrip (reverse t))

module _ (traceback error_hint : Raised → Text) where
  unfoldable pub completed : ℕ → Option Text → World → Output
  unfolding collect_ida_messages
  completed pre_count value w =
      let messages = collect_ida_messages pre_count w.messages in
      record {
        result = elim value [ none ↦ [] | some v ↦ v ];
        stdout = w.out_text;
        stderr =
            if is_empty messages then w.err_text else strip (w.err_text ++ lit "\n" ++ messages);
        error = none;
      }

  unfoldable pub interrupted : Text → World → Output
  interrupted reason w = record {
    result = [];
    stdout = w.out_text;
    stderr = strip (
        w.err_text
        ++ lit "\n"
        ++ reason
        ++ lit
            ". The script was interrupted on the IDA main thread; output above is partial. Split the work into smaller batches (e.g. process N functions per call, resume from the last printed address) instead of re-running the same script.");
    error = some reason;
  }

  unfoldable pub exited : Text → World → Output
  exited code w = record {
    result = [];
    stdout = w.out_text;
    stderr = strip (
        w.err_text
        ++ lit "\nScript called exit("
        ++ code
        ++ lit "); execution stopped there (IDA itself keeps running).");
    error = none;
  }

  unfoldable pub failed : Raised → World → Output
  unfolding rstrip
  failed e w = record {
    result = [];
    stdout = w.out_text;
    stderr =
        if is_empty (error_hint e)
        then traceback e
        else rstrip (traceback e) ++ lit "\n\n" ++ error_hint e;
    error = none;
  }

  -- The `except` clauses: a BaseException beside ToolInterrupt and SystemExit passes.
  unfoldable pub handled : ℕ → Result (Option Text) → World → Result Output
  unfolding completed interrupted exited failed
  handled pre_count (ok value) w = ok (completed pre_count value w)
  handled pre_count (err (interrupt reason t)) w = ok (interrupted t w)
  handled pre_count (err (exit cls code)) w =
      if cls == lit "SystemExit" then ok (exited code w) else err (exit cls code)
  handled pre_count (err e) w = ok (failed e w)

  unfoldable pub run_code : Code → Exec World Output
  unfolding evaluate handled count_messages
  run_code c w =
      let captured = record w {
        stdout = captured_out;
        stderr = captured_err;
        out_text = [];
        err_text = [];
      } in
      let (value, w') = evaluate c c.parsed_as captured in
      (
        handled (count_messages w.messages) value w',
        record w' { stdout = w.stdout; stderr = w.stderr },
      )

  unfoldable pub formatted : Output → Text
  formatted o = format_result o.result o.stdout o.stderr

  -- An interrupt is told as an error of the tool, with what was printed.
  unfoldable pub told : Output → Exec World Text
  unfolding formatted
  told o w = elim o.error [
    | none ↦ (ok (formatted o), w)
    | some e ↦ if is_empty e then (ok (formatted o), w) else (err (tool_error (formatted o)), w)
  ]

  unfoldable pub execute_script : Code → Exec World Text
  unfolding run_code told
  execute_script c = run_code c >>= told
