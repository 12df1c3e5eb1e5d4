-- ===== src/Mcp/Host/Named.antt =====
-- The host that a Host header names.
use ida_mcp.Prelude.{
  ℕ, suc, ◌-◌, ◌≡◌, ◌≢◌, refl, sym, ap, ◌∙◌, ◌↔◌, inl, inr, Bool, true, false, some, [], ◌∷◌, ◌++◌,
  take, drop, length, arith, ◌==◌, nat_eq, Bool-cases, Option-cases,
}
use mathlib.Core.Option
use ida_mcp.Text.{Text, find, count}
use ida_mcp.Mcp.Host.{before_colon, bracketed, host_of}

abbrev pub begins_bracketed : Text → Bool
begins_bracketed [] = false
begins_bracketed (c ∷ t) = c == b'['

-- What a header without the spaces around it names: the address in brackets, whatever follows; else,
-- where there is one colon, what stands before it; else the header, if it is not empty.
pub data Names : Text → Text → Type 0 where
  in_brackets :
      {t : Text} (n rest : Text) → t ≡ b'[' ∷ (n ++ b']' ∷ rest) → count b']' n ≡ 0 → Names t n
  with_port :
      {t : Text} (n port : Text)
      → t ≡ n ++ b':' ∷ port
      → begins_bracketed t ≡ false
      → count b':' n ≡ 0
      → count b':' port ≡ 0
      → Names t n
  bare :
      {t : Text} (c : ℕ) (n : Text)
      → t ≡ c ∷ n
      → c ≢ b'['
      → count b':' (c ∷ n) ≢ 1
      → Names t (c ∷ n)

-- The first occurrence splits a text.
find-splits :
    (d : ℕ) (t : Text) (i : ℕ)
    → find d t ≡ some i
    → (t ≡ take i t ++ d ∷ drop (suc i) t) × (count d (take i t) ≡ 0)
unfolding find count
find-splits d [] i h = absurd (cc h)
find-splits d (c ∷ t) i h = elim (Bool-cases (c == d)) [
  | inl e ↦
      let first : i ≡ 0 = Option.some_inj.0 (sym (rw (e, find) at h)) in
      let same : c ≡ d = ground arith in rw (first, same) (refl, refl)
  | inr e ↦ elim (Option-cases (find d t)) [
    | inl f ↦ absurd (cc (rw (e, f, find) at h))
    | inr (j, f) ↦
        let next : i ≡ suc j = Option.some_inj.0 (sym (rw (e, f, find) at h)) in
        let (split, without) = find-splits d t j f in
        rw (next, e, count) (ap (λ u. c ∷ u) split, without)
  ]
]

find-first :
    (d : ℕ) (n rest : Text)
    → count d n ≡ 0
    → (find d (n ++ d ∷ rest) ≡ some (length n)) × (take (length n) (n ++ d ∷ rest) ≡ n)
unfolding find count
find-first d [] rest h = let same : d == d ≡ true = ground arith in (rw (same, find) refl, refl)
find-first d (c ∷ n) rest h = elim (Bool-cases (c == d)) [
  | inl e ↦ absurd (ground (arith, rw e at h))
  | inr e ↦
      let (at_end, whole) = find-first d n rest (rw e at h) in
      (rw (e, at_end, find) refl, ap (λ u. c ∷ u) whole)
]

count-none-before : (t : Text) → count b':' (before_colon t) ≡ 0
unfolding before_colon count
count-none-before [] = refl
count-none-before (c ∷ t) = ground (arith, count-none-before t)

-- One colon splits a text.
before_colon-splits :
    (t : Text)
    → count b':' t ≡ 1
    → (port : Text) × (t ≡ before_colon t ++ b':' ∷ port) × (count b':' port ≡ 0)
unfolding before_colon count
before_colon-splits [] h = absurd (omega (arith, h))
before_colon-splits (c ∷ t) h = elim (Bool-cases (c == b':')) [
  | inl e ↦
      let same : c ≡ b':' = ground arith in
      let others = rw e at h in
      (t, rw (e, before_colon) (ap (λ x. x ∷ t) same), omega (arith, others))
  | inr e ↦
      let (port, split, without) = before_colon-splits t (rw e at h) in
      (port, rw (e, before_colon) (ap (λ u. c ∷ u) split), without)
]

before_colon-first :
    (n port : Text)
    → count b':' n ≡ 0
    → count b':' port ≡ 0
    → (before_colon (n ++ b':' ∷ port) ≡ n) × (count b':' (n ++ b':' ∷ port) ≡ 1)
unfolding before_colon count nat_eq
before_colon-first [] port h k = (refl, ap suc k)
before_colon-first (c ∷ n) port h k = elim (Bool-cases (c == b':')) [
  | inl e ↦ absurd (ground (arith, rw e at h))
  | inr e ↦
      let (same, one) = before_colon-first n port (rw e at h) k in
      (rw e (ap (λ u. c ∷ u) same), rw e one)
]

back : (k : ℕ) → suc k - 1 ≡ k
back k = omega arith

bracketed-names : (t n : Text) → bracketed (b'[' ∷ t) ≡ some n → Names (b'[' ∷ t) n
unfolding bracketed find nat_eq
bracketed-names t n h = elim (Option-cases (find b']' t)) [
  | inl e ↦ absurd (cc (rw (e, bracketed) at h))
  | inr (i, e) ↦
      let (split, without) = find-splits b']' t i e in
      let is : n ≡ take i t = Option.some_inj.0 (sym (rw (e, bracketed, back i) at h)) in
      rw is (in_brackets (take i t) (drop (suc i) t) (ap (λ u. b'[' ∷ u) split) without)
]

names-bracketed :
    (n rest : Text) → count b']' n ≡ 0 → bracketed (b'[' ∷ (n ++ b']' ∷ rest)) ≡ some n
unfolding bracketed find nat_eq
names-bracketed n rest h =
    let (at_end, whole) = find-first b']' n rest h in
    rw (at_end, bracketed, back (length n)) (ap some whole)

host_of-names : (t n : Text) → host_of t ≡ some n → Names t n
unfolding host_of
host_of-names [] n h = absurd (cc h)
host_of-names (c ∷ t) n h = elim (Bool-cases (c == b'[')) [
  | inl e ↦ let same : c ≡ b'[' = ground arith in rw same (bracketed-names t n (rw (e, same) at h))
  | inr e ↦ elim (Bool-cases (count b':' (c ∷ t) == 1)) [
    | inl f ↦
        let is : n ≡ before_colon (c ∷ t) = Option.some_inj.0 (sym (rw (e, f, host_of) at h)) in
        let (port, split, without) = before_colon-splits (c ∷ t) (ground arith) in
        rw is (with_port (before_colon (c ∷ t)) port split e (count-none-before (c ∷ t)) without)
    | inr f ↦
        let is : n ≡ c ∷ t = Option.some_inj.0 (sym (rw (e, f, host_of) at h)) in
        rw is (bare c t refl (ground arith) (ground arith))
  ]
]

one_colon :
    (t : Text) → begins_bracketed t ≡ false → count b':' t ≡ 1 → host_of t ≡ some (before_colon t)
unfolding host_of count
one_colon [] plain one = absurd (cc one)
one_colon (c ∷ t) plain one =
    let f : count b':' (c ∷ t) == 1 ≡ true = ground (arith, one) in rw (plain, f, host_of) refl

names-host_of : (t n : Text) → Names t n → host_of t ≡ some n
unfolding host_of nat_eq find
names-host_of t n (in_brackets m rest split without) = rw split (names-bracketed m rest without)
names-host_of t n (with_port m port split plain without none_more) =
    let (same, one) = before_colon-first n port without none_more in
    one_colon t plain (ap (count b':') split ∙ one) ∙ ap some (ap before_colon split ∙ same)
names-host_of t _ (bare c n split plain colons) =
    let e : c == b'[' ≡ false = ground arith in
    let f : count b':' (c ∷ n) == 1 ≡ false = ground arith in rw (split, e, f, host_of) refl

-- A header without the spaces around it is read as the host that it names, and as no host where it
-- names none.
pub host_of_iff : (t n : Text) → (host_of t ≡ some n) ↔ Names t n
host_of_iff t n = (host_of-names t n, names-host_of t n)
