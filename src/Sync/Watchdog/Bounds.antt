-- ===== src/Sync/Watchdog/Bounds.antt =====
-- When the watchdog injects an interrupt, and how often.
use ida_mcp.Prelude.{
  ℕ, suc, ◌+◌, ◌≤◌, ◌<◌, ◌≡◌, refl, inl, inr, Bool, true, false, not, ◌&&◌, ◌||◌, Option, none,
  some, List, [], ◌∷◌, ◌++◌, leb, arith, length, All, Bool-cases,
}
use ida_mcp.Sync.Watchdog.{
  Round, Watch, Move, wait, inject, inject_last, stop, due_at, see_cancel, is_after, is_due,
  watch_round, watch_from, run_watchdog, native_cancel_grace, hard_interrupt_extra,
  hard_interrupt_retry, hard_interrupt_max_attempts,
}

-- The rounds of a list, each a retry period after the one before, inside the tool and before its end.
abbrev pub Spaced : Option ℕ → List Round → Type 0
Spaced earliest [] = Unit
Spaced earliest (r ∷ rs) =
    (is_after r.now earliest ≡ true)
    × (r.in_tool ≡ true)
    × (r.done ≡ false)
    × Spaced (some (r.now + hard_interrupt_retry)) rs

-- The tool is running at a round, before and under the lock.
abbrev pub IsRunning : Round → Type 0
IsRunning r = (r.done ≡ false) × (r.done_locked ≡ false) × (r.in_tool ≡ true)

-- What an injection needs.
abbrev MayInject : Option ℕ → Round → Watch → Type 0
MayInject deadline r w =
    (is_after r.now w.next_try ≡ true)
    × (r.in_tool ≡ true)
    × (r.done ≡ false)
    × (is_due r.now (due_at deadline (see_cancel w.cancel_seen r)) ≡ true)

abbrev seen_by : Round → Watch → Watch
seen_by r w = record w { cancel_seen = see_cancel w.cancel_seen r }

abbrev injected : Round → Watch → Watch
injected r w = record {
  cancel_seen = see_cancel w.cancel_seen r;
  attempts = suc w.attempts;
  next_try = some (r.now + hard_interrupt_retry);
}

running-not : (a b : Bool) → a ≡ false → b ≡ true → ¬ (a || not b ≡ true)
running-not true b p q h = absurd (cc p)
running-not false true p q h = absurd (cc h)
running-not false false p q h = absurd (cc q)

is_in_tool : (a b : Bool) → a || not b ≡ false → b ≡ true
is_in_tool true b h = absurd (cc h)
is_in_tool false true h = refl
is_in_tool false false h = absurd (cc h)

-- What a round can do.
round-moves {ℓ} :
    (P : Move → Type ℓ) (deadline : Option ℕ) (r : Round) (w : Watch)
    → (¬ IsRunning r → P stop)
    → (is_due r.now (due_at deadline (see_cancel w.cancel_seen r)) && is_after r.now w.next_try
          ≡ false
        → P (wait (seen_by r w)))
    → (MayInject deadline r w → P inject_last)
    → (MayInject deadline r w
        → suc w.attempts < hard_interrupt_max_attempts
        → P (inject (injected r w)))
    → P (watch_round deadline r w)
unfolding watch_round
round-moves P deadline r w at_stop at_wait at_last at_inject = elim (Bool-cases r.done) [
  | inl e ↦ simp e (at_stop (λ h. absurd (cc (e, h.0))))
  | inr e ↦ elim (Bool-cases (is_due r.now (due_at deadline (see_cancel w.cancel_seen r)))) [
    | inr f ↦ simp (e, f) (at_wait (simp f refl))
    | inl f ↦ elim (Bool-cases (is_after r.now w.next_try)) [
      | inr g ↦ simp (e, f, g) (at_wait (simp (f, g) refl))
      | inl g ↦ elim (Bool-cases (r.done_locked || not r.in_tool)) [
        | inl k ↦
            simp (e, f, g, k)
              (at_stop (λ h. absurd (running-not (r.done_locked) r.in_tool h.1 h.2 k)))
        | inr k ↦
            let may : MayInject deadline r w = (g, is_in_tool r.done_locked r.in_tool k, e, f) in
            elim (Bool-cases (leb hard_interrupt_max_attempts (suc w.attempts))) [
              | inl l ↦ simp (e, f, g, k, l) (at_last may)
              | inr l ↦ simp (e, f, g, k, l) (at_inject may (ground arith))
            ]
      ]
    ]
  ]
]

module _ (deadline : Option ℕ) where
  watch_from-length :
      (rs : List Round) (w : Watch)
      → w.attempts < hard_interrupt_max_attempts
      → length (watch_from deadline rs w) + w.attempts ≤ hard_interrupt_max_attempts
  unfolding watch_from
  watch_from-length [] w h = omega (arith, h)
  watch_from-length (r ∷ rs) w h =
      round-moves
        (λ m.
          length (elim m [
            | wait w' ↦ watch_from deadline rs w'
            | inject w' ↦ r ∷ watch_from deadline rs w'
            | inject_last ↦ r ∷ []
            | stop ↦ []
          ])
            + w.attempts
          ≤ hard_interrupt_max_attempts)
        deadline r w (λ _. omega (arith, h)) (λ _. watch_from-length rs (seen_by r w) h)
        (λ _. omega (arith, h)) (λ _ more. omega (arith, watch_from-length rs (injected r w) more))

  watch_from-Spaced : (rs : List Round) (w : Watch) → Spaced w.next_try (watch_from deadline rs w)
  unfolding watch_from
  watch_from-Spaced [] w = tt
  watch_from-Spaced (r ∷ rs) w =
      round-moves
        (λ m. Spaced w.next_try (elim m [
          | wait w' ↦ watch_from deadline rs w'
          | inject w' ↦ r ∷ watch_from deadline rs w'
          | inject_last ↦ r ∷ []
          | stop ↦ []
        ]))
        deadline r w (λ _. tt) (λ _. watch_from-Spaced rs (seen_by r w))
        (λ may. (may.0, may.1, may.2, tt))
        (λ may _. (may.0, may.1, may.2, watch_from-Spaced rs (injected r w)))

  -- An interrupt is injected at most ten times.
  pub run_watchdog-length :
      (rs : List Round) → length (run_watchdog deadline rs) ≤ hard_interrupt_max_attempts
  unfolding run_watchdog
  run_watchdog-length rs = omega (
    arith,
    watch_from-length rs record { cancel_seen = none; attempts = 0; next_try = none } (omega arith),
  )

  -- Every injection falls while the guarded body is on the main thread's stack and the call is not
  -- over, and at least the retry period (2 s) after the injection before it.
  pub run_watchdog-Spaced : (rs : List Round) → Spaced none (run_watchdog deadline rs)
  unfolding run_watchdog
  run_watchdog-Spaced rs = watch_from-Spaced rs _

due_at-le :
    (d : ℕ) (seen : Option ℕ) (now : ℕ)
    → d + native_cancel_grace + hard_interrupt_extra ≤ now
    → is_due now (due_at (some d) seen) ≡ true
unfolding due_at is_due
due_at-le d none now h = ground arith
due_at-le d (some c) now h = ground arith

-- A round of a running tool injects, or leaves it to the later rounds.
opens :
    (d : ℕ) (b : Round) (rest : List Round) (w : Watch)
    → IsRunning b
    → (is_due b.now (due_at (some d) (see_cancel w.cancel_seen b)) && is_after b.now w.next_try
          ≡ false
        → 0 < length (watch_from (some d) rest (seen_by b w)))
    → 0 < length (watch_from (some d) (b ∷ rest) w)
unfolding watch_from
opens d b rest w live later =
    round-moves
      (λ m.
        0
        < length (elim m [
          | wait w' ↦ watch_from (some d) rest w'
          | inject w' ↦ b ∷ watch_from (some d) rest w'
          | inject_last ↦ b ∷ []
          | stop ↦ []
        ]))
      (some d) b w (λ h. absurd (h live)) later (λ _. omega arith) (λ _ _. omega arith)

-- A tool that is still running ten seconds past its deadline is interrupted: where it runs at every
-- round, and some round comes that late, at least one interrupt is injected.
pub run_watchdog-fires :
    (d : ℕ) (early : List Round) (r : Round) (rs : List Round)
    → All IsRunning early
    → IsRunning r
    → d + native_cancel_grace + hard_interrupt_extra ≤ r.now
    → 0 < length (run_watchdog (some d) (early ++ r ∷ rs))
unfolding run_watchdog is_after
run_watchdog-fires d early r rs running now late =
    from early record { cancel_seen = none; attempts = 0; next_try = none } running refl
  where
    from :
        (before : List Round) (w : Watch)
        → All IsRunning before
        → w.next_try ≡ none
        → 0 < length (watch_from (some d) (before ++ r ∷ rs) w)
    from [] w _ fresh =
        opens d r rs w now
          (λ h. absurd (cc (rw (fresh, due_at-le d (see_cancel w.cancel_seen r) r.now late) at h)))
    from (b ∷ bs) w (h, hs) fresh =
        opens d b (bs ++ r ∷ rs) w h (λ _. from bs (seen_by b w) hs fresh)
