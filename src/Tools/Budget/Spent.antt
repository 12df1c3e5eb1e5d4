-- ===== src/Tools/Budget/Spent.antt =====
-- How long the loop over the addresses takes, and what it answers for each.
use mathlib.Core.List.{Memᴰ}
use ida_mcp.Prelude.{
  ℕ, ◌+◌, ◌-◌, ◌≤◌, ◌<◌, ◌≡◌, refl, Bool, true, some, inl, inr, List, [], ◌∷◌, leb, Bool-cases,
  arith,
}
use ida_mcp.Prelude.Int.{ℤ}
use ida_mcp.Text.{Text}
use ida_mcp.Exec.{Result, ok, err}
use ida_mcp.Tools.Signature.{check_format}
use ida_mcp.Tools.Limits.{split_addrs}
use ida_mcp.Tools.Budget.{
  sig_budget, Entry, fetched, budget_exceeded, Run, prepend, onward, clamp_length, hops,
  make_signature, hop, Ida, Signed,
}

-- Each address has an answer of its own that says that the budget is exceeded.
abbrev pub AllExceeded : {R : Type 0} → List Text → List (Entry R) → Type 0
AllExceeded [] [] = Unit
AllExceeded (q ∷ qs) (budget_exceeded p ∷ es) = (p ≡ q) × AllExceeded qs es
AllExceeded _ _ = ⊥

-- Each address has an answer in its place: that of its hop, up to an address from which on the budget is
-- exceeded.
abbrev pub IsServed : {R : Type 0} → (Text → ℕ → Result R × ℕ) → List Text → List (Entry R) → Type 0
IsServed fetch [] [] = Unit
IsServed fetch (q ∷ qs) (fetched r ∷ es) = ((t : ℕ) × ((fetch q t).0 ≡ ok r)) × IsServed fetch qs es
IsServed fetch (q ∷ qs) (budget_exceeded p ∷ es) = (p ≡ q) × AllExceeded qs es
IsServed _ _ _ = ⊥

-- The run ends with an answer in the place of each address, or with what the hop of one of them raised.
abbrev pub Ends :
    {R : Type 0} → (Text → ℕ → Result R × ℕ) → List Text → Result (List (Entry R)) → Type 0
Ends fetch qs (ok es) = IsServed fetch qs es
Ends fetch qs (err x) = (q : Text) × (t : ℕ) × Memᴰ q qs × ((fetch q t).0 ≡ err x)

-- A hop ends no earlier than it began, and takes at most h.
abbrev pub IsBounded : {R : Type 0} → ℕ → (Text → ℕ → Result R × ℕ) → Type 0
IsBounded h fetch = (q : Text) (t : ℕ) → (t ≤ (fetch q t).1) × ((fetch q t).1 ≤ t + h)

module _ {R : Type 0} (fetch : Text → ℕ → Result R × ℕ) (start : ℕ) where
  hops-over :
      (qs : List Text) (now : ℕ)
      → leb sig_budget (now - start) ≡ true
      → (es : List (Entry R)) × (hops fetch start qs now ≡ (ok es, now)) × AllExceeded qs es
  unfolding hops
  hops-over [] now e = ([], refl, tt)
  hops-over (q ∷ qs) now e =
      let (es, run, all) = hops-over qs now e in
      (budget_exceeded q ∷ es, rw (e, hops, run) refl, (refl, all))

  prepend-Ends :
      (q : Text) (qs : List Text) (r : R) (t : ℕ) (run : Run R)
      → (fetch q t).0 ≡ ok r
      → Ends fetch qs run.0
      → Ends fetch (q ∷ qs) (prepend (fetched r) run).0
  prepend-Ends q qs r t (ok es, end) e h = ((t, e), h)
  prepend-Ends q qs r t (err x, end) e (p, u, m, f) = (p, u, Memᴰ.tail m, f)

  prepend-end : (e : Entry R) (run : Run R) → (prepend e run).1 ≡ run.1
  prepend-end e (ok es, end) = refl
  prepend-end e (err x, end) = refl

  onward-Ends :
      (q : Text) (qs : List Text) (t : ℕ) (o : Result R) (later : ℕ) (run : Run R)
      → (fetch q t).0 ≡ o
      → Ends fetch qs run.0
      → Ends fetch (q ∷ qs) (onward fetch o run later).0
  onward-Ends q qs t (ok r) later run e h = prepend-Ends q qs r t run e h
  onward-Ends q qs t (err x) later run e h = (q, t, Memᴰ.head refl, e)

  hops-Ends : (qs : List Text) (now : ℕ) → Ends fetch qs (hops fetch start qs now).0
  unfolding hops
  hops-Ends [] now = tt
  hops-Ends (q ∷ qs) now = elim (Bool-cases (leb sig_budget (now - start))) [
    | inl e ↦ let (es, run, all) = hops-over qs now e in rw (e, hops, run) (refl, all)
    | inr e ↦
        rw (e, hops)
          (onward-Ends q qs now (fetch q now).0 (fetch q now).1 _ refl
            (hops-Ends qs (fetch q now).1))
  ]

  onward-le :
      (o : Result R) (later bound : ℕ) (run : Run R)
      → later ≤ bound
      → run.1 ≤ bound
      → (onward fetch o run later).1 ≤ bound
  onward-le (ok r) later bound run a b = rw (prepend-end (fetched r) run) b
  onward-le (err x) later bound run a b = a

  hops-le :
      (h : ℕ)
      → IsBounded h fetch
      → (qs : List Text) (now : ℕ) → start ≤ now
      → now ≤ start + sig_budget + h
      → (hops fetch start qs now).1 ≤ start + sig_budget + h
  unfolding hops
  hops-le h bounded [] now after le = le
  hops-le h bounded (q ∷ qs) now after le = elim (Bool-cases (leb sig_budget (now - start))) [
    | inl e ↦ let (es, run, all) = hops-over qs now e in rw (e, hops, run) le
    | inr e ↦
        let early : now - start < sig_budget = ground (arith, e) in
        let step = bounded q now in
        let near : (fetch q now).1 ≤ start + sig_budget + h = omega (arith, step.1, early) in
        rw (e, hops)
          (onward-le (fetch q now).0 (fetch q now).1 _ _ near
            (hops-le h bounded qs (fetch q now).1 (omega (arith, step.0)) near))
  ]

-- Where every hop takes at most h, a call with a known format ends within the budget and one hop more,
-- whatever the addresses. It raises only what the hop of one of them raised; else it has an answer for
-- each in its place: that of its hop, up to an address from which on the budget is exceeded.
pub make_signature-IsServed :
    (ida : Ida) (addresses format fmt : Text) (wildcard : Bool) (max_length : ℤ) (now h : ℕ)
    → check_format format ≡ some fmt
    → ((q : Text) (t : ℕ) → (t ≤ (ida.wrapper q t).1) × ((ida.wrapper q t).1 ≤ t + h))
    → (results : Result (List (Entry Signed))) × (end : ℕ) × (make_signature ida addresses format
          wildcard max_length now
        ≡ (some results, end))
      × Ends (hop ida (clamp_length max_length) wildcard fmt) (split_addrs addresses) results
      × (end ≤ now + sig_budget + h)
unfolding make_signature hop
make_signature-IsServed ida addresses format fmt wildcard max_length now h known bounded =
    let one = hop ida (clamp_length max_length) wildcard fmt in
    let qs = split_addrs addresses in
    let run = hops one now qs now in
    (
      run.0,
      run.1,
      rw (known, make_signature) refl,
      hops-Ends one now qs now,
      hops-le one now h bounded qs now (omega arith) (omega arith),
    )
