-- ===== src/Tools/Debugger/Hooks.antt =====
-- Which hooks wait, and what events do to them.
use ida_mcp.Prelude.{
  ℕ, suc, ◌≡◌, refl, ap, ◌∙◌, ◌⊎◌, inl, inr, Bool, true, false, ◌||◌, List, [], ◌∷◌, length, arith,
  if◌then◌else◌, ◌==◌, nat_eq, Bool-cases,
}
use ida_mcp.Tools.Debugger.{
  BatchHook, Session, restore, restore_all, all_finished, reported, restore_newest, timer, Event,
  process_reported, timer_fired, happen, happen_all,
}

abbrev pub AllDone : List BatchHook → Type 0
AllDone [] = Unit
AllDone (h ∷ hs) = (h.done ≡ true) × AllDone hs

-- An event that ends the start of the n-th hook: any report, or its own timer.
abbrev pub ends : ℕ → Event → Bool
ends n process_reported = true
ends n (timer_fired m) = m == n

abbrev pub any_ends : ℕ → List Event → Bool
any_ends n [] = false
any_ends n (e ∷ es) = ends n e || any_ends n es

restore_all-done : (hs : List BatchHook) (b : ℕ) → AllDone hs → restore_all hs b ≡ b
unfolding restore_all restore
restore_all-done [] b h = refl
restore_all-done (x ∷ hs) b h = simp (h.0, restore_all-done hs b h.1)

AllDone-finished : (hs : List BatchHook) → AllDone (all_finished hs)
AllDone-finished [] = tt
AllDone-finished (x ∷ hs) = (refl, AllDone-finished hs)

length-finished : (hs : List BatchHook) → length (all_finished hs) ≡ length hs
length-finished [] = refl
length-finished (x ∷ hs) = ap suc (length-finished hs)

pub restore_newest-done :
    (s : Session) (hs : List BatchHook)
    → s.hooks ≡ hs
    → AllDone hs
    → ((restore_newest s hs).batch ≡ s.batch)
      × AllDone (restore_newest s hs).hooks
      × (length (restore_newest s hs).hooks ≡ length hs)
unfolding restore_newest restore
restore_newest-done s [] e h = (refl, rw e tt, ap length e)
restore_newest-done s (x ∷ hs) e h = (simp h.0, (refl, h.1), refl)

-- Every hook but the newest is done; the newest waits.
pub record IsPending (r n : ℕ) (s : Session) : Type 0 where
  pub older : List BatchHook
  pub hooks_are : s.hooks ≡ record { restore_batch = r; done = false } ∷ older
  pub older_done : AllDone older
  pub number : length older ≡ n

settled_happen :
    (e : Event) (s : Session)
    → AllDone s.hooks
    → ((happen e s).batch ≡ s.batch) × AllDone (happen e s).hooks
unfolding happen reported timer
settled_happen process_reported s h = (restore_all-done s.hooks s.batch h, AllDone-finished s.hooks)
settled_happen (timer_fired n) s h = elim (Bool-cases (suc n == length s.hooks)) [
  | inl e ↦ let r = restore_newest-done s s.hooks refl h in rw (e, happen) (r.0, r.1)
  | inr e ↦ rw (e, happen) (refl, h)
]

pub settled_all :
    (es : List Event) (s : Session) → AllDone s.hooks → (happen_all es s).batch ≡ s.batch
unfolding happen_all
settled_all [] s h = refl
settled_all (e ∷ es) s h =
    let (same, h') = settled_happen e s h in settled_all es (happen e s) h' ∙ same

-- The event that ends a start gives the flag back, and settles the hooks.
pending_ends :
    (e : Event) (r n : ℕ) (s : Session)
    → IsPending r n s
    → ends n e ≡ true
    → ((happen e s).batch ≡ r) × AllDone (happen e s).hooks
unfolding happen reported restore_all restore timer restore_newest
pending_ends process_reported r n s h e =
    rw (h.hooks_are, happen) (refl, (refl, AllDone-finished h.older))
pending_ends (timer_fired m) r n s h e =
    let now : suc m == suc (length h.older) ≡ true = ground (arith, h.number) in
    rw (h.hooks_are, now, happen) (refl, (refl, h.older_done))

pending_stays :
    (e : Event) (r n : ℕ) (s : Session) → IsPending r n s → ends n e ≡ false → happen e s ≡ s
unfolding happen timer
pending_stays process_reported r n s h e = absurd (cc e)
pending_stays (timer_fired m) r n s h e =
    let other : suc m == length s.hooks ≡ false = ground (arith, h.number, ap length h.hooks_are) in
    simp other

pub pending_all :
    (es : List Event) (r n : ℕ) (s : Session)
    → IsPending r n s
    → (happen_all es s).batch ≡ (if any_ends n es then r else s.batch)
unfolding happen_all
pending_all [] r n s h = refl
pending_all (e ∷ es) r n s h = elim (Bool-cases (ends n e)) [
  | inl f ↦
      let (back, settled) = pending_ends e r n s h f in
      rw f (settled_all es (happen e s) settled ∙ back)
  | inr f ↦
      rw f (ap (λ t. (happen_all es t).batch) (pending_stays e r n s h f) ∙ pending_all es r n s h)
]

settled_hooks : (es : List Event) (s : Session) → AllDone s.hooks → AllDone (happen_all es s).hooks
unfolding happen_all
settled_hooks [] s h = h
settled_hooks (e ∷ es) s h = settled_hooks es (happen e s) (settled_happen e s h).1

-- After events either the start is over, or nothing has changed.
pub happen_all-cases :
    (es : List Event) (r n : ℕ) (s : Session)
    → IsPending r n s
    → ((any_ends n es ≡ true) × ((happen_all es s).batch ≡ r) × AllDone (happen_all es s).hooks)
      ⊎ ((any_ends n es ≡ false) × (happen_all es s ≡ s))
unfolding happen_all
happen_all-cases [] r n s h = inr (refl, refl)
happen_all-cases (e ∷ es) r n s h = elim (Bool-cases (ends n e)) [
  | inl f ↦
      let (back, settled) = pending_ends e r n s h f in
      inl (rw f refl, settled_all es (happen e s) settled ∙ back, settled_hooks es _ settled)
  | inr f ↦
      let stays = pending_stays e r n s h f in
      rw (f, happen_all, stays) (happen_all-cases es r n s h)
]

pub unchanged :
    (es : List Event) (r n : ℕ) (s : Session)
    → IsPending r n s
    → any_ends n es ≡ false
    → happen_all es s ≡ s
unchanged es r n s h going = elim (happen_all-cases es r n s h) [
  | inl (over, _, _) ↦ absurd (cc (over, going))
  | inr (_, same) ↦ same
]
