-- ===== src/Tests/Tooling.antt =====
-- The theorems on what tools share, at small inputs.
use ida_mcp.Prelude.{
  ℕ, zero, suc, ◌+◌, ◌≤◌, ◌≡◌, ◌↔◌, refl, true, false, Option, none, some, List, [], ◌∷◌, arith,
  text_eq, nat_eq,
}
use ida_mcp.Text.{Text, lit}
use ida_mcp.Tools.Regex.{Pattern, then_, empty, plain, repeats, unbounded, no_more, check}
use ida_mcp.Tools.Regex.Paths.{IsNested}
use ida_mcp.Tools.Regex.Nesting.{check-refuses_iff}
use ida_mcp.Tools.Signature.{
  Insn, Signature, Search, insn_sig_bytes, make_unique, make_from, is_unique, find_nth,
  to_ida_pattern,
}
use ida_mcp.Tools.Signature.Unique.{IsSearch, IsOnlyMatch, make_unique-IsOnlyMatch}
use ida_mcp.Hooks.{Hooks, Operation, installs, logs, removes, hooked, apply_all}
use ida_mcp.Hooks.Table.{IsTidy, of_type, apply_all-IsTidy}
use ida_mcp.Tests.Fixtures.{word}

-- (a+)+
abbrev letter_repeat : Pattern
letter_repeat = then_ (repeats unbounded (then_ (plain no_more) empty)) empty

abbrev nested : Pattern
nested = then_ (repeats unbounded letter_repeat) empty

check-refuses_iff_example : (check none nested ≡ false) ↔ IsNested nested
check-refuses_iff_example = check-refuses_iff nested

-- One instruction of two bytes at the address 0, whose second byte is an operand; no code elsewhere.
abbrev insn : Insn
insn = record {
  size = 2;
  raw = 0xe8 ∷ 7 ∷ [];
  operands = record { wild = true; offset = 1; size = 1 } ∷ [];
}

abbrev decode : ℕ → Option Insn
decode zero = some insn
decode (suc n) = none

abbrev two_bytes : Signature
two_bytes = some 0xe8 ∷ none ∷ []

-- A database in which every pattern stands at the address 0 only.
abbrev AtZero : Text → ℕ → Type 0
AtZero p a = a ≡ 0

abbrev find : Search
find p zero = some 0
find p (suc n) = none

find-finds : (p : Text) (ea found : ℕ) → find p ea ≡ some found → AtZero p found × (ea ≤ found)
find-finds p zero found h = (cc h, omega arith)
find-finds p (suc n) found h = absurd (cc h)

find-first : (p : Text) (ea found a : ℕ) → find p ea ≡ some found → ea ≤ a → AtZero p a → found ≤ a
find-first p zero found a h le m = let zeroth : 0 ≡ found = cc h in omega (arith, zeroth)
find-first p (suc n) found a h le m = absurd (cc h)

find-misses : (p : Text) (ea a : ℕ) → find p ea ≡ none → ea ≤ a → ¬ AtZero p a
find-misses p zero a h le m = absurd (cc h)
find-misses p (suc n) a h le m = omega (arith, le, m)

find-IsSearch : IsSearch AtZero find
find-IsSearch = record { finds = find-finds; first = find-first; misses = find-misses }

make_unique-IsOnlyMatch_example : IsOnlyMatch AtZero 0 (to_ida_pattern two_bytes) 0 × (2 ≡ 0 + 2)
unfolding make_unique nat_eq make_from insn_sig_bytes is_unique find_nth
make_unique-IsOnlyMatch_example =
    make_unique-IsOnlyMatch decode find 0 (λ n. false) 0 10 true AtZero find-IsSearch two_bytes 2
      refl

abbrev rows : List ℕ
rows = 1 ∷ 2 ∷ 3 ∷ []

abbrev no_hooks : Hooks
no_hooks = record { sequence = 0; table = [] }

no_hooks-IsTidy : IsTidy no_hooks
unfolding of_type
no_hooks-IsTidy = record { single = λ kind. omega arith; bounded = tt }

abbrev operations : List Operation
operations =
    installs (lit "idb") hooked
    ∷ logs 1 (word b'e')
    ∷ installs (lit "idb") hooked
    ∷ removes (some 1)
    ∷ []

apply_all-IsTidy_example : IsTidy (apply_all operations no_hooks)
apply_all-IsTidy_example = apply_all-IsTidy operations no_hooks no_hooks-IsTidy
