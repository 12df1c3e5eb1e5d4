-- ===== src/Sync/Wrapper/Stack.antt =====
-- The guard against a tool that calls a tool.
use ida_mcp.Prelude.{
  ℕ, suc, ◌≤◌, ◌≡◌, refl, ap, Bool, Option, none, some, List, [], ◌∷◌, length, arith, ltb, ◌||◌,
  Bool-cases, inl, inr,
}
use ida_mcp.Text.{Text}
use ida_mcp.Json.{Value}
use ida_mcp.Exec.{Raised, Exec}
use ida_mcp.Sync.Wrapper.{
  Ida, Main, Outcome, runned_on, runned, finish, begin, synced, timed, sync_wrapper, pop,
}

-- A body that pops what it pushes, as one does that only calls tools.
abbrev pub Balances : {I : Type 0} → Exec (Main I) Value → Type 0
Balances ff = (s : Main _) → length (ff s).1.call_stack ≤ length s.call_stack

pop-length : (xs : List Text) (n : ℕ) → length xs ≤ suc n → length (pop xs) ≤ n
pop-length [] n h = omega arith
pop-length (x ∷ xs) n h = omega (arith, h)

module _ {I : Type 0} (api : Ida I) (escape : Raised → Outcome) where
  runned-stack :
      (name : Text) (keep_batch : Bool) (ff : Exec (Main I) Value)
      → Balances ff
      → (s : Main I) → length (runned api name keep_batch ff s).1.call_stack ≤ length s.call_stack
  unfolding runned runned_on begin finish
  runned-stack name keep_batch ff h s = by_stack s.call_stack refl
    where
      by_stack :
          (xs : List Text)
          → s.call_stack ≡ xs
          → length (runned api name keep_batch ff s).1.call_stack ≤ length s.call_stack
      by_stack (x ∷ xs) e = simp e (omega arith)
      by_stack [] e = simp e (pop-length _ 0 (simp e at (h (begin api name s))))

  timed-Balances :
      (limit : ℕ) (ff : Exec (Main I) Value) → Balances ff → Balances (timed api escape limit ff)
  unfolding timed
  timed-Balances limit ff h s = h _

  -- A call leaves the call stack no longer than it was, where the tool's body does.
  sync_wrapper-stack :
      (server : ℕ) (own : Option ℕ) (cancellable keep_batch : Bool) (name : Text)
      (ff : Exec (Main I) Value)
      → Balances ff
      → (s : Main I)
      → length (sync_wrapper api escape server own cancellable keep_batch name ff s).1.call_stack
        ≤ length s.call_stack
  unfolding sync_wrapper synced
  sync_wrapper-stack server none cancellable keep_batch name ff h s =
      elim (Bool-cases (ltb 0 server || cancellable)) [
        | inl e ↦ simp e (
            runned-stack name keep_batch (timed api escape server ff) (timed-Balances server ff h)
              s)
        | inr e ↦ simp e (runned-stack name keep_batch ff h s)
      ]
  sync_wrapper-stack server (some t) cancellable keep_batch name ff h s =
      elim (Bool-cases (ltb 0 t || cancellable)) [
        | inl e ↦
            simp e (runned-stack name keep_batch (timed api escape t ff) (timed-Balances t ff h) s)
        | inr e ↦ simp e (runned-stack name keep_batch ff h s)
      ]

  -- What a tool's body is, as far as the call stack goes: it leaves the stack as it is and ends, or it
  -- works, calls a tool through the wrapper, and goes on with what it is given.
  pub data IsToolBody : Exec (Main I) Value → Type 0 where
    ends :
        {ff : Exec (Main I) Value}
        → ((s : Main I) → (ff s).1.call_stack ≡ s.call_stack)
        → IsToolBody ff
    calls :
        {inner : Exec (Main I) Value} {onward : Outcome → Exec (Main I) Value}
        (work : Main I → Main I) (server : ℕ) (own : Option ℕ) (cancellable keep_batch : Bool)
        (name : Text)
        → ((s : Main I) → (work s).call_stack ≡ s.call_stack)
        → IsToolBody inner
        → ((o : Outcome) → IsToolBody (onward o))
        → IsToolBody (λ s.
          let (o, s') =
            sync_wrapper api escape server own cancellable keep_batch name inner (work s) in
          onward o s')

  IsToolBody-Balances : (ff : Exec (Main I) Value) → IsToolBody ff → Balances ff
  IsToolBody-Balances ff (ends same) s = omega (arith, ap length (same s))
  IsToolBody-Balances _ (calls {inner} {onward} work server own c k name same is_inner is_onward)
        s =
      let run = sync_wrapper api escape server own c k name inner (work s) in
      omega (
        arith,
        ap length (same s),
        sync_wrapper-stack server own c k name inner (IsToolBody-Balances inner is_inner) (work s),
        IsToolBody-Balances (onward run.0) (is_onward run.0) run.1,
      )

  -- A call of a tool whose body touches the call stack only by calls of tools, these of tools again and so
  -- on to any depth, leaves the stack no longer than it was, whatever the bodies raise.
  pub sync_wrapper-nested :
      (server : ℕ) (own : Option ℕ) (cancellable keep_batch : Bool) (name : Text)
      (ff : Exec (Main I) Value)
      → IsToolBody ff
      → (s : Main I)
      → length (sync_wrapper api escape server own cancellable keep_batch name ff s).1.call_stack
        ≤ length s.call_stack
  sync_wrapper-nested server own cancellable keep_batch name ff h s =
      sync_wrapper-stack server own cancellable keep_batch name ff (IsToolBody-Balances ff h) s
