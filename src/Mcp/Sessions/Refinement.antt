-- ===== src/Mcp/Sessions/Refinement.antt =====
-- The table of sessions against what it promises: each identifier has its last use, and is known as long
-- as the time to live has not passed since.
use mathlib.Core.Path.{subst}
use ida_mcp.Prelude.{
  ℕ, ◌+◌, ◌≤◌, ◌<◌, ◌≡◌, refl, ap, sym, ◌∙◌, inl, inr, Bool, true, false, not, ◌&&◌, ◌||◌, Option,
  none, some, List, [], ◌∷◌, ◌++◌, ltb, keep, if◌then◌else◌, ◌==◌, text_eq, arith, Bool-cases,
  Option-cases,
}
use ida_mcp.Prelude.Dict.{Dict, lookup, insert, erase, lookup-erase_self}
use ida_mcp.Text.{Text}
use ida_mcp.Mcp.Sessions.{
  Sessions, is_expired, drop_expired, prune_table, register_http_session, has_http_session,
}
use ida_mcp.Mcp.Sessions.Lifetime.{insert-absent}

-- The promise: a map from identifiers to their last use.
abbrev pub Promise : Type 0
Promise = Text → Option ℕ

abbrev pub over : ℕ → ℕ → ℕ → Bool
over ttl now t = ltb 0 ttl && ltb (t + ttl) now

abbrev pub is_known : ℕ → ℕ → Option ℕ → Bool
is_known ttl now none = false
is_known ttl now (some t) = not (over ttl now t)

abbrev pub used : Text → ℕ → Promise → Promise
used id now m k = if k == id then some now else m k

-- A call, with the time of the clock.
pub data Call : Type 0 where
  registers asks : Text → ℕ → Call

abbrev pub time_of : Call → ℕ
time_of (registers id now) = now
time_of (asks id now) = now

-- The clock does not go back.
abbrev pub Ordered : ℕ → List Call → Type 0
Ordered now [] = Unit
Ordered now (c ∷ cs) = (now ≤ time_of c) × Ordered (time_of c) cs

-- What is answered to the calls that ask, by the table and by the promise.
abbrev pub answers : Sessions → List Call → List Bool
answers s [] = []
answers s (registers id now ∷ cs) = answers (register_http_session id now s) cs
answers s (asks id now ∷ cs) = let (known, s') = has_http_session id now s in known ∷ answers s' cs

abbrev pub promised : ℕ → Promise → List Call → List Bool
promised ttl m [] = []
promised ttl m (registers id now ∷ cs) = promised ttl (used id now m) cs
promised ttl m (asks id now ∷ cs) =
    let known = is_known ttl now (m id) in
    known ∷ promised ttl (if known then used id now m else m) cs

-- Some entry of the identifier has not expired.
abbrev alive : ℕ → ℕ → Text → Dict Text ℕ → Bool
alive ttl now id [] = false
alive ttl now id ((k, t) ∷ d) = (id == k && not (over ttl now t)) || alive ttl now id d

alive-keep :
    (ttl now later : ℕ) (id : Text) (d : Dict Text ℕ)
    → now ≤ later
    → 0 < ttl
    → alive ttl later id (keep (λ (k, t). not (is_expired ttl now t)) d) ≡ alive ttl later id d
alive-keep ttl now later id [] le timed = refl
alive-keep ttl now later id ((k, t) ∷ d) le timed =
    ground (arith, alive-keep ttl now later id d le timed)

alive-drop :
    (ttl now later : ℕ) (id : Text) (d : Dict Text ℕ)
    → now ≤ later
    → alive ttl later id (drop_expired ttl now d) ≡ alive ttl later id d
unfolding drop_expired
alive-drop ttl now later id d le = elim (Bool-cases (ltb 0 ttl)) [
  | inl e ↦ rw e (alive-keep ttl now later id d le (ground arith))
  | inr e ↦ rw e refl
]

alive-append :
    (ttl now : ℕ) (id k : Text) (t : ℕ) (d : Dict Text ℕ)
    → alive ttl now id (d ++ (k, t) ∷ [])
      ≡ (alive ttl now id d || (id == k && not (over ttl now t)))
alive-append ttl now id k t [] = ground arith
alive-append ttl now id k t ((j, u) ∷ d) = ground (arith, alive-append ttl now id k t d)

alive-erase :
    (ttl now : ℕ) (id k : Text) (d : Dict Text ℕ)
    → alive ttl now id (erase k d) ≡ (if id == k then false else alive ttl now id d)
unfolding erase
alive-erase ttl now id k [] = ground arith
alive-erase ttl now id k ((j, u) ∷ d) = ground (arith, alive-erase ttl now id k d)

abbrev is_there : Option ℕ → Bool
is_there none = false
is_there (some t) = true

alive-lookup-keep :
    (ttl now : ℕ) (id : Text) (d : Dict Text ℕ)
    → 0 < ttl
    → is_there (lookup id (keep (λ (k, t). not (is_expired ttl now t)) d)) ≡ alive ttl now id d
unfolding lookup
alive-lookup-keep ttl now id [] timed = refl
alive-lookup-keep ttl now id ((k, t) ∷ d) timed =
    ground (arith, alive-lookup-keep ttl now id d timed)

alive-lookup_all :
    (ttl now : ℕ) (id : Text) (d : Dict Text ℕ)
    → ltb 0 ttl ≡ false
    → is_there (lookup id d) ≡ alive ttl now id d
unfolding lookup
alive-lookup_all ttl now id [] free = refl
alive-lookup_all ttl now id ((k, t) ∷ d) free = ground (arith, alive-lookup_all ttl now id d free)

alive-lookup :
    (ttl now : ℕ) (id : Text) (d : Dict Text ℕ)
    → is_there (lookup id (drop_expired ttl now d)) ≡ alive ttl now id d
unfolding drop_expired
alive-lookup ttl now id d = elim (Bool-cases (ltb 0 ttl)) [
  | inl e ↦ rw e (alive-lookup-keep ttl now id d (ground arith))
  | inr e ↦ rw e (alive-lookup_all ttl now id d e)
]

-- From a time on, the table and the promise know the same identifiers.
abbrev Agrees : ℕ → ℕ → Dict Text ℕ → Promise → Type 0
Agrees ttl now d m =
    (later : ℕ) (id : Text) → now ≤ later → alive ttl later id d ≡ is_known ttl later (m id)

pruned-Agrees :
    (ttl now : ℕ) (d : Dict Text ℕ) (m : Promise)
    → Agrees ttl now d m
    → Agrees ttl now (drop_expired ttl now d) m
pruned-Agrees ttl now d m h later id le = alive-drop ttl now later id d le ∙ h later id le

or-false : (b : Bool) → (b || false) ≡ b
or-false true = refl
or-false false = refl

used-Agrees :
    (ttl now : ℕ) (k : Text) (d : Dict Text ℕ) (m : Promise)
    → Agrees ttl now d m
    → Agrees ttl now (insert k now (erase k d)) (used k now m)
used-Agrees ttl now k d m h later id le =
    let gone = insert-absent k now (erase k d) (lookup-erase_self k d) in
    let last = alive-append ttl later id k now (erase k d) in
    let rest = alive-erase ttl later id k d in
    let old = h later id le in
    rw gone (elim (Bool-cases (id == k)) [
      | inl e ↦ rw (last, rest, e) refl
      | inr e ↦ rw (last, rest, e) (or-false (alive ttl later id d) ∙ old)
    ])

module _ (s : Sessions) (now : ℕ) (m : Promise) (unbounded : s.max_count ≡ 0)
    (h : Agrees s.ttl_sec now s.table m) where
  prune-is : (d : Dict Text ℕ) → prune_table s now d ≡ drop_expired s.ttl_sec now d
  unfolding prune_table
  prune-is d = ground (arith, unbounded)

  register-Agrees :
      (id : Text) → Agrees s.ttl_sec now (register_http_session id now s).table (used id now m)
  unfolding register_http_session
  register-Agrees id =
      rw (prune-is (insert id now (erase id s.table)))
        (pruned-Agrees s.ttl_sec now _ (used id now m) (used-Agrees s.ttl_sec now id s.table m h))

  asked-is :
      (id : Text) → is_there (lookup id (prune_table s now s.table)) ≡ is_known s.ttl_sec now (m id)
  asked-is id =
      rw (prune-is s.table) (alive-lookup s.ttl_sec now id s.table ∙ h now id (omega arith))

  -- What asking answers, and what it leaves.
  asked-Agrees :
      (id : Text)
      → ((has_http_session id now s).0 ≡ is_known s.ttl_sec now (m id))
        × ((has_http_session id now s).1.ttl_sec ≡ s.ttl_sec)
        × ((has_http_session id now s).1.max_count ≡ 0)
        × Agrees s.ttl_sec now
            (has_http_session id now s).1.table
            (if is_known s.ttl_sec now (m id) then used id now m else m)
  unfolding has_http_session
  asked-Agrees id =
      let pruned : Agrees s.ttl_sec now (prune_table s now s.table) m =
        rw (prune-is s.table) (pruned-Agrees s.ttl_sec now s.table m h) in
      elim (Option-cases (lookup id (prune_table s now s.table))) [
        | inl e ↦
            let no : is_known s.ttl_sec now (m id) ≡ false = sym (asked-is id) ∙ ap is_there e in
            rw (e, no, has_http_session) (refl, refl, unbounded, pruned)
        | inr (t, e) ↦
            let known : is_known s.ttl_sec now (m id) ≡ true = sym (asked-is id) ∙ ap is_there e in
            rw (e, known, has_http_session)
              (
                refl,
                refl,
                unbounded,
                used-Agrees s.ttl_sec now id (prune_table s now s.table) m pruned,
              )
      ]

-- From any table that agrees with the promise.
refines :
    (cs : List Call) (s : Sessions) (now : ℕ) (m : Promise)
    → s.max_count ≡ 0
    → Agrees s.ttl_sec now s.table m
    → Ordered now cs
    → answers s cs ≡ promised s.ttl_sec m cs
unfolding register_http_session
refines [] s now m unbounded h o = refl
refines (registers id t ∷ cs) s now m unbounded h o =
    let h' : Agrees s.ttl_sec t s.table m = λ later k le. h later k (omega (arith, o.0)) in
    refines cs (register_http_session id t s) t (used id t m) unbounded
      (register-Agrees s t m unbounded h' id) o.1
refines (asks id t ∷ cs) s now m unbounded h o =
    let h' : Agrees s.ttl_sec t s.table m = λ later k le. h later k (omega (arith, o.0)) in
    let (same, ttl, free, next) = asked-Agrees s t m unbounded h' id in
    let s' = (has_http_session id t s).1 in
    let m' = if is_known s.ttl_sec t (m id) then used id t m else m in
    let next' : Agrees s'.ttl_sec t s'.table m' =
      subst (λ n. Agrees n t s'.table m') (sym ttl) next in
    let tail : answers s' cs ≡ promised s.ttl_sec m' cs =
      subst (λ n. answers s' cs ≡ promised n m' cs) ttl (refines cs s' t m' free next' o.1) in
    ap (λ b. b ∷ answers s' cs) same ∙ ap (λ bs. is_known s.ttl_sec t (m id) ∷ bs) tail

-- An unbounded table of sessions answers every sequence of calls, by a clock that does not go back, as
-- the map of last uses does: a session is known exactly while its time to live has not passed since
-- it was registered or last found.
pub answers-promised :
    (ttl : ℕ) (cs : List Call)
    → Ordered 0 cs
    → answers (record { table = []; ttl_sec = ttl; max_count = 0 }) cs
      ≡ promised ttl (λ id. none) cs
answers-promised ttl cs o =
    refines cs (record { table = []; ttl_sec = ttl; max_count = 0 }) 0 (λ id. none) refl
      (λ later id le. refl) o
