-- ===== src/Hooks/Table.antt =====
-- The table of hooks: one hook of a type, and a bounded log for each.
use ida_mcp.Prelude.{
  ℕ, suc, ◌+◌, ◌-◌, ◌≤◌, ◌≡◌, refl, inl, inr, Bool, not, All, contains, none, some, List, [], ◌∷◌,
  ◌++◌, map, keep, arith, length, length-drop, if◌then◌else◌, ◌==◌, text_eq, nat_eq, Bool-cases,
}
use ida_mcp.Text.{Text}
use ida_mcp.Hooks.{
  Hook, Hooks, events_per_hook, append_event, logged, log, Attempt, not_made, not_hooked, hooked,
  tracers, replaced, install, remove_hooks, Operation, installs, logs, removes, apply, apply_all,
}

-- How many hooks of a type there are.
unfoldable pub of_type : Text → List Hook → ℕ
of_type kind [] = 0
of_type kind (h ∷ hs) = let more = of_type kind hs in if h.hook_type == kind then suc more else more

-- No type has two hooks, and no log is longer than its bound.
pub record IsTidy (s : Hooks) : Type 0 where
  pub single : (kind : Text) → of_type kind s.table ≤ 1
  pub bounded : All (λ h. length h.events ≤ events_per_hook) s.table

of_type-append :
    (kind : Text) (xs ys : List Hook) → of_type kind (xs ++ ys) ≡ of_type kind xs + of_type kind ys
unfolding of_type
of_type-append kind [] ys = omega arith
of_type-append kind (h ∷ hs) ys = ground (arith, of_type-append kind hs ys)

of_type-keep :
    (p : Hook → Bool) (kind : Text) (hs : List Hook) → of_type kind (keep p hs) ≤ of_type kind hs
unfolding of_type
of_type-keep p kind [] = omega arith
of_type-keep p kind (h ∷ hs) = ground (arith, of_type-keep p kind hs)

of_type-others :
    (k kind : Text) (hs : List Hook)
    → k ≡ kind
    → of_type kind (keep (λ h. not (h.hook_type == k)) hs) ≡ 0
unfolding of_type
of_type-others k kind [] e = refl
of_type-others k kind (h ∷ hs) e = ground (arith, e, of_type-others k kind hs e)

All-keep : (p : Hook → Bool) (P : Hook → Type 0) (hs : List Hook) → All P hs → All P (keep p hs)
All-keep p P [] h = tt
All-keep p P (x ∷ xs) (h, hs) = elim (Bool-cases (p x)) [
  | inl e ↦ rw e (h, All-keep p P xs hs)
  | inr e ↦ rw e (All-keep p P xs hs)
]

All-append : (P : Hook → Type 0) (xs ys : List Hook) → All P xs → All P ys → All P (xs ++ ys)
All-append P [] ys h k = k
All-append P (x ∷ xs) ys (h, hs) k = (h, All-append P xs ys hs k)

append_event-length :
    (events : List Text) (event : Text) → length (append_event events event) ≤ events_per_hook
unfolding append_event
append_event-length events event =
    let grown : List Text = events ++ event ∷ [] in
    omega (arith, length-drop (length grown - events_per_hook) grown)

logged-type :
    (kind : Text) (number : ℕ) (event : Text) (hs : List Hook)
    → of_type kind (map (λ h. if h.number == number then logged event h else h) hs)
      ≡ of_type kind hs
unfolding of_type logged
logged-type kind number event [] = refl
logged-type kind number event (h ∷ hs) = elim (Bool-cases (h.number == number)) [
  | inl e ↦ rw (e, logged-type kind number event hs) refl
  | inr e ↦ rw (e, logged-type kind number event hs) refl
]

logged-bounded :
    (number : ℕ) (event : Text) (hs : List Hook)
    → All (λ h. length h.events ≤ events_per_hook) hs
    → All
        (λ h. length h.events ≤ events_per_hook)
        (map (λ h. if h.number == number then logged event h else h) hs)
unfolding logged
logged-bounded number event [] h = tt
logged-bounded number event (x ∷ xs) (h, hs) = elim (Bool-cases (x.number == number)) [
  | inl e ↦ rw e (append_event-length x.events event, logged-bounded number event xs hs)
  | inr e ↦ rw e (h, logged-bounded number event xs hs)
]

others-IsTidy :
    (s : Hooks) (n : ℕ) (p : Hook → Bool)
    → IsTidy s
    → IsTidy (record { sequence = n; table = keep p s.table })
others-IsTidy s n p h = record {
  single = λ kind. omega (arith, h.single kind, of_type-keep p kind s.table);
  bounded = All-keep p _ s.table h.bounded;
}

added-IsTidy :
    (s : Hooks) (n : ℕ) (fresh : Hook)
    → IsTidy s
    → length fresh.events ≤ events_per_hook
    → IsTidy (record {
      sequence = n;
      table = keep (λ h. not (h.hook_type == fresh.hook_type)) s.table ++ fresh ∷ [];
    })
unfolding of_type
added-IsTidy s n fresh h k = record {
  single = λ kind. elim (Bool-cases (fresh.hook_type == kind)) [
    | inl e ↦
        let same : fresh.hook_type ≡ kind = ground (arith, e) in
        let none_left = of_type-others fresh.hook_type kind s.table same in
        ground (
          arith,
          none_left,
          of_type-append kind (keep (λ h. not (h.hook_type == fresh.hook_type)) s.table)
              (fresh ∷ []),
        )
    | inr e ↦ ground (
      arith,
      e,
      h.single kind,
      of_type-keep (λ h. not (h.hook_type == fresh.hook_type)) kind s.table,
      of_type-append kind (keep (λ h. not (h.hook_type == fresh.hook_type)) s.table) (fresh ∷ []),
    )
  ];
  bounded = All-append _ _ _ (All-keep _ _ s.table h.bounded) (k, tt);
}

replaced-IsTidy :
    (kind : Text) (attempt : Attempt) (s : Hooks) → IsTidy s → IsTidy (replaced kind attempt s).1
unfolding replaced
replaced-IsTidy kind not_made s h = record { single = h.single; bounded = h.bounded }
replaced-IsTidy kind not_hooked s h =
    others-IsTidy s (suc s.sequence) (λ h. not (h.hook_type == kind)) h
replaced-IsTidy kind hooked s h =
    added-IsTidy s (suc s.sequence)
      (record { hook_type = kind; number = suc s.sequence; events = []; event_count = 0 }) h
      (omega arith)

install-IsTidy :
    (kind : Text) (attempt : Attempt) (s : Hooks) → IsTidy s → IsTidy (install kind attempt s).1
unfolding install
install-IsTidy kind attempt s h = elim (Bool-cases (contains tracers kind)) [
  | inr e ↦ rw e h
  | inl e ↦ rw e (replaced-IsTidy kind attempt s h)
]

apply-IsTidy : (o : Operation) (s : Hooks) → IsTidy s → IsTidy (apply o s)
unfolding apply log remove_hooks
apply-IsTidy (installs kind attempt) s h = install-IsTidy kind attempt s h
apply-IsTidy (logs number event) s h = record {
  single = λ kind. rw (logged-type kind number event s.table) (h.single kind);
  bounded = logged-bounded number event s.table h.bounded;
}
apply-IsTidy (removes none) s h = record {
  single = λ kind. unfold of_type in omega arith;
  bounded = tt;
}
apply-IsTidy (removes (some number)) s h =
    others-IsTidy s s.sequence (λ h. not (h.number == number)) h

-- Whatever hooks are installed, logged to and removed, in any order: no type has two hooks, and no log
-- is longer than 200 events.
pub apply_all-IsTidy : (os : List Operation) (s : Hooks) → IsTidy s → IsTidy (apply_all os s)
unfolding apply_all
apply_all-IsTidy [] s h = h
apply_all-IsTidy (o ∷ os) s h = apply_all-IsTidy os (apply o s) (apply-IsTidy o s h)
