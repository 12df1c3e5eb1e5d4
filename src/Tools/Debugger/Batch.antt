-- ===== src/Tools/Debugger/Batch.antt =====
-- When batch mode is given back.
use ida_mcp.Prelude.{
  ℕ, ◌≡◌, refl, ap, sym, ◌∙◌, ◌++◌, inl, inr, Bool, true, false, ◌||◌, List, [], ◌∷◌, length, arith,
  if◌then◌else◌, nat_eq,
}
use ida_mcp.Exec.{ok, err}
use ida_mcp.Tools.Debugger.{
  Session, restore_newest, arm, Launch, Ended, started, leave, dbg_start, Event, happen_all,
}
use ida_mcp.Tools.Debugger.Hooks.{
  restore_newest-done, settled_all, pending_all, happen_all-cases, AllDone, any_ends, IsPending,
}

armed : Session → Session
unfolding arm
armed s = arm s.batch (record s { batch = 1 })

armed-IsPending :
    (s : Session)
    → AllDone s.hooks
    → IsPending s.batch (length s.hooks) (armed s) × ((armed s).batch ≡ 1)
unfolding armed arm
armed-IsPending s h =
    let on : Session = record s { batch = 1 } in
    let r = restore_newest-done on on.hooks refl h in
    (
      record {
        older = (restore_newest on on.hooks).hooks;
        hooks_are = refl;
        older_done = r.1;
        number = r.2;
      },
      r.0,
    )

-- A flag that is set beside the hooks changes nothing of what waits.
leave-IsPending :
    (o : Ended) (b r n : ℕ) (s : Session) → IsPending r n s → IsPending r n (leave o b s)
unfolding leave
leave-IsPending (ok u) b r n s h = h
leave-IsPending (err e) b r n s h = record {
  older = h.older;
  hooks_are = h.hooks_are;
  older_done = h.older_done;
  number = h.number;
}

leave-AllDone : (o : Ended) (b : ℕ) (s : Session) → AllDone s.hooks → AllDone (leave o b s).hooks
unfolding leave
leave-AllDone (ok u) b s h = h
leave-AllDone (err e) b s h = h

-- The call has ended with this, and the flag was `old` before it.
abbrev pub flag_after : Ended → Bool → ℕ → ℕ
flag_after (ok u) over old = if over then old else 1
flag_after (err e) over old = old

same_flag : (over : Bool) (b : ℕ) → (if over then b else b) ≡ b
same_flag true b = refl
same_flag false b = refl

any_ends-append :
    (n : ℕ) (es fs : List Event) → any_ends n (es ++ fs) ≡ (any_ends n es || any_ends n fs)
any_ends-append n [] fs = refl
any_ends-append n (e ∷ es) fs = ground (arith, any_ends-append n es fs)

-- From the end of a call whose start is still under way.
left-pending :
    (o : Ended) (old n : ℕ) (es : List Event) (s : Session)
    → IsPending old n s
    → s.batch ≡ 1
    → (happen_all es (leave o old s)).batch ≡ flag_after o (any_ends n es) old
unfolding leave
left-pending (ok u) old n es s h on =
    pending_all es old n s h ∙ ap (λ b. if any_ends n es then old else b) on
left-pending (err e) old n es s h on =
    pending_all es old n (leave (err e) old s) (leave-IsPending (err e) old old n s h)
    ∙ same_flag (any_ends n es) old

left-settled :
    (o : Ended) (old : ℕ) (es : List Event) (s : Session)
    → AllDone s.hooks
    → s.batch ≡ old
    → (happen_all es (leave o old s)).batch ≡ old
unfolding leave
left-settled (ok u) old es s h e = settled_all es s h ∙ e
left-settled (err x) old es s h e = settled_all es (record s { batch = old }) h

flag-over : (o : Ended) (old : ℕ) → flag_after o true old ≡ old
flag-over (ok u) old = refl
flag-over (err e) old = refl

-- Where no start is under way, a call of dbg_start that ends well keeps batch mode on until a process is
-- reported or its own timer fires, during the call or after it, and the flag is then what it was before
-- the call; after a call that raises it is that at once. Nothing that follows changes it again.
pub dbg_start-restores :
    (launch : Launch) (during es : List Event) (s : Session)
    → AllDone s.hooks
    → (happen_all es (dbg_start launch during s).1).batch
      ≡ flag_after (dbg_start launch during s).0 (any_ends (length s.hooks) (during ++ es)) s.batch
unfolding dbg_start armed
dbg_start-restores launch during es s h =
    let n = length s.hooks in
    let (pending, on) = armed-IsPending s h in
    let o = started launch in
    rw (any_ends-append n during es) (elim (happen_all-cases during s.batch n (armed s) pending) [
      | inl (over, back, settled) ↦ rw over (
          left-settled o s.batch es (happen_all during (armed s)) settled back
          ∙ sym (flag-over o s.batch))
      | inr (going, same) ↦ rw (going, same) (left-pending o s.batch n es (armed s) pending on)
    ])
