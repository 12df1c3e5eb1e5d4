-- ===== src/Sync/Hook/Limits.antt =====
-- When the hook and the polls end a tool.
use ida_mcp.Prelude.{
  ℕ, ◌≡◌, refl, ◌⊎◌, inl, inr, ◌↔◌, Bool, true, false, ◌&&◌, Option, none, List, [], ◌∷◌, ◌++◌, leb,
  if◌then◌else◌, Bool-cases,
}
use ida_mcp.Text.{Text}
use ida_mcp.Exec.{Raised, Result, ok, err}
use ida_mcp.Sync.Hook.{
  Pump, Glance, in_grace, is_past, is_set, user_hit_cancel, pumps, profilefunc, watch_body,
  check_cancelled, Poll, Answer, missing, says, raises, ensure_analysis,
}

abbrev pub IsOk {ℓ} : {A : Type ℓ} → Result A → Type 0
IsOk (ok a) = Unit
IsOk (err e) = ⊥

IsOk-if : (b : Bool) (x y : Result ℕ) → ¬ IsOk x → ¬ IsOk y → ¬ IsOk (if b then x else y)
IsOk-if true x y p q = p
IsOk-if false x y p q = q

-- The call is over its deadline and out of the grace of the native cancel.
abbrev pub IsOverdue : Glance → Type 0
IsOverdue g = (is_past g.now g.deadline ≡ true) × (in_grace g.now g.fired_at ≡ false)

overdue-raises :
    (t : Text) (g : Glance) (next_pump : ℕ) → IsOverdue g → ¬ IsOk (profilefunc t g next_pump)
unfolding profilefunc
overdue-raises t g next_pump (past, out) =
    simp (past, out) (IsOk-if (is_set g.cancel_set) _ _ (λ x. x) (λ x. x))

cancel-raises :
    (t : Text) (g : Glance) (next_pump : ℕ)
    → is_set g.cancel_set ≡ true
    → ¬ IsOk (profilefunc t g next_pump)
unfolding profilefunc
cancel-raises t g next_pump h = simp h (λ x. x)

later :
    (t : Text) (r : Result ℕ) (gs : List Glance)
    → ((n : ℕ) → ¬ IsOk (watch_body t gs n))
    → ¬ IsOk (elim r [ ok n ↦ watch_body t gs n | err e ↦ err e ])
later t (ok n) gs h = h n
later t (err e) gs h = λ x. x

first :
    (t : Text) (r : Result ℕ) (gs : List Glance)
    → ¬ IsOk r
    → ¬ IsOk (elim r [ ok n ↦ watch_body t gs n | err e ↦ err e ])
first t (ok n) gs h x = h tt
first t (err e) gs h x = x

-- A tool that makes any call after its deadline and the grace period, or after its request was
-- cancelled, is interrupted, whatever it did before and would do after.
pub watch_body-raises :
    (t : Text) (before : List Glance) (g : Glance) (after : List Glance) (next_pump : ℕ)
    → IsOverdue g ⊎ (is_set g.cancel_set ≡ true)
    → ¬ IsOk (watch_body t (before ++ g ∷ after) next_pump)
unfolding watch_body
watch_body-raises t [] g after n (inl h) =
    first t (profilefunc t g n) after (overdue-raises t g n h)
watch_body-raises t [] g after n (inr h) = first t (profilefunc t g n) after (cancel-raises t g n h)
watch_body-raises t (b ∷ bs) g after n h =
    later t (profilefunc t b n) (bs ++ g ∷ after) (λ m. watch_body-raises t bs g after m h)

-- Nothing asks the tool to stop: no cancel, no deadline that has passed, no click on Cancel.
abbrev pub IsQuiet : Glance → Type 0
IsQuiet g =
    (is_set g.cancel_set ≡ false)
    × (is_past g.now g.deadline ≡ false)
    × (user_hit_cancel g.pump g.fired_at ≡ false)

profilefunc-quiet : (t : Text) (g : Glance) (n : ℕ) → IsQuiet g → IsOk (profilefunc t g n)
unfolding profilefunc
profilefunc-quiet t g n (a, b, c) = elim (Bool-cases (in_grace g.now g.fired_at)) [
  | inl e ↦ simp (a, b, c, e) tt
  | inr e ↦ elim (Bool-cases (pumps g.pump && leb n g.now)) [
    | inl f ↦ simp (a, b, c, e, f) tt
    | inr f ↦ simp (a, b, c, e, f) tt
  ]
]

abbrev pub AllQuiet : List Glance → Type 0
AllQuiet [] = Unit
AllQuiet (g ∷ gs) = IsQuiet g × AllQuiet gs

-- A tool that is not asked to stop is not interrupted.
pub watch_body-quiet :
    (t : Text) (gs : List Glance) (n : ℕ) → AllQuiet gs → IsOk (watch_body t gs n)
unfolding watch_body
watch_body-quiet t [] n h = tt
watch_body-quiet t (g ∷ gs) n (h, hs) =
    go (profilefunc t g n) (profilefunc-quiet t g n h) (λ m. watch_body-quiet t gs m hs)
  where
    go :
        (r : Result ℕ)
        → IsOk r
        → ((m : ℕ) → IsOk (watch_body t gs m))
        → IsOk (elim r [ ok m ↦ watch_body t gs m | err e ↦ err e ])
    go (ok m) _ more = more m
    go (err e) x more = absurd x

-- A poll lets a tool go on exactly where its request is not cancelled, its deadline has not come and
-- the user has not cancelled.
pub check_cancelled-ok_iff :
    (event : Option Bool) (deadline : Option ℕ) (t : Text) (now : ℕ) (user : Pump)
    → IsOk (check_cancelled event deadline t now user) ↔ (
        (is_set event ≡ false)
        × (is_past now deadline ≡ false)
        × (user_hit_cancel user none ≡ false))
unfolding check_cancelled
check_cancelled-ok_iff event deadline t now user =
    choose (is_set event) (is_past now deadline) (user_hit_cancel user none) _ _ _
  where
    choose :
        (a b c : Bool) (x y z : Raised)
        → let r : Poll = if a then err x else if b then err y else if c then err z else ok tt in
          IsOk r ↔ ((a ≡ false) × (b ≡ false) × (c ≡ false))
    choose true b c x y z = (λ k. absurd k, λ h. absurd (cc (h.0)))
    choose false true c x y z = (λ k. absurd k, λ h. absurd (cc (h.1)))
    choose false false true x y z = (λ k. absurd k, λ h. absurd (cc (h.2)))
    choose false false false x y z = (λ _. (refl, refl, refl), λ _. tt)

-- Where ensure_analysis lets a tool go on, IDA said last that its analysis is done, or it could not
-- be asked.
pub ensure_analysis_sound :
    (first later : Answer)
    → IsOk (ensure_analysis first later).0
    → (first ≡ says true) ⊎ ((¬ (first ≡ says false)) ⊎ (¬ (later ≡ says false)))
unfolding ensure_analysis
ensure_analysis_sound (says true) later h = inl refl
ensure_analysis_sound missing later h = inr (inl (λ e. cc e))
ensure_analysis_sound raises later h = inr (inl (λ e. cc e))
ensure_analysis_sound (says false) (says true) h = inr (inr (λ e. cc e))
ensure_analysis_sound (says false) (says false) h = absurd h
ensure_analysis_sound (says false) missing h = inr (inr (λ e. cc e))
ensure_analysis_sound (says false) raises h = inr (inr (λ e. cc e))
