-- ===== src/Tools/Regex/Found.antt =====
-- Every pattern that the guard refuses is nested.
use ida_mcp.Prelude.{
  ◌≡◌, refl, ◌⊎◌, inl, inr, Bool, true, false, not, ◌&&◌, ◌||◌, Option, none, some, Bool-cases,
}
use ida_mcp.Tools.Regex.{
  Times, at_most, unbounded, Pattern, empty, then_, Op, repeats, atomic, plain, Children, no_more,
  child, is_many, is_unbounded, clashes, within, check, check_op, check_children,
}
use ida_mcp.Tools.Regex.Paths.{
  HasRepeat, here, further, OpHasRepeat, itself, below, in_plain, SomeHasRepeat, this, that,
  IsNested, at_head, after_head, OpIsNested, pair, inside, in_atomic, among, SomeIsNested, in_this,
  in_that,
}

-- A repeat inside P clashes with one around it.
abbrev pub Clash : Option Bool → ((Bool → Type 0) → Type 0) → Type 0
Clash none P = ⊥
Clash (some c) P = P (λ u. c || u ≡ true)

and-cases : (a b : Bool) → a && b ≡ false → (a ≡ false) ⊎ (b ≡ false)
and-cases true b h = inr h
and-cases false b h = inl refl

-- What a construct holds belongs to the pattern that it begins.
head-of :
    (e : Option Bool) (o : Op) (p : Pattern)
    → OpIsNested o ⊎ Clash e (λ bad. OpHasRepeat bad o)
    → IsNested (then_ o p) ⊎ Clash e (λ bad. HasRepeat bad (then_ o p))
head-of e o p (inl x) = inl (at_head x)
head-of none o p (inr y) = elim y [ ]
head-of (some c) o p (inr y) = inr (here y)

tail-of :
    (e : Option Bool) (o : Op) (p : Pattern)
    → IsNested p ⊎ Clash e (λ bad. HasRepeat bad p)
    → IsNested (then_ o p) ⊎ Clash e (λ bad. HasRepeat bad (then_ o p))
tail-of e o p (inl x) = inl (after_head x)
tail-of none o p (inr y) = elim y [ ]
tail-of (some c) o p (inr y) = inr (further y)

first-of :
    (e : Option Bool) (p : Pattern) (cs : Children)
    → IsNested p ⊎ Clash e (λ bad. HasRepeat bad p)
    → SomeIsNested (child p cs) ⊎ Clash e (λ bad. SomeHasRepeat bad (child p cs))
first-of e p cs (inl x) = inl (in_this x)
first-of none p cs (inr y) = elim y [ ]
first-of (some c) p cs (inr y) = inr (this y)

rest-of :
    (e : Option Bool) (p : Pattern) (cs : Children)
    → SomeIsNested cs ⊎ Clash e (λ bad. SomeHasRepeat bad cs)
    → SomeIsNested (child p cs) ⊎ Clash e (λ bad. SomeHasRepeat bad (child p cs))
rest-of e p cs (inl x) = inl (in_that x)
rest-of none p cs (inr y) = elim y [ ]
rest-of (some c) p cs (inr y) = inr (that y)

few-of :
    (e : Option Bool) (t : Times) (p : Pattern)
    → IsNested p ⊎ Clash e (λ bad. HasRepeat bad p)
    → OpIsNested (repeats t p) ⊎ Clash e (λ bad. OpHasRepeat bad (repeats t p))
few-of e t p (inl x) = inl (inside x)
few-of none t p (inr y) = elim y [ ]
few-of (some c) t p (inr y) = inr (below y)

plain-of :
    (e : Option Bool) (cs : Children)
    → SomeIsNested cs ⊎ Clash e (λ bad. SomeHasRepeat bad cs)
    → OpIsNested (plain cs) ⊎ Clash e (λ bad. OpHasRepeat bad (plain cs))
plain-of e cs (inl x) = inl (among x)
plain-of none cs (inr y) = elim y [ ]
plain-of (some c) cs (inr y) = inr (in_plain y)

atomic-of :
    (e : Option Bool) (cs : Children)
    → SomeIsNested cs ⊎ ⊥
    → OpIsNested (atomic cs) ⊎ Clash e (λ bad. OpHasRepeat bad (atomic cs))
atomic-of e cs (inl x) = inl (in_atomic x)
atomic-of e cs (inr y) = elim y [ ]

clash-of :
    (e : Option Bool) (t : Times) (p : Pattern)
    → is_many t ≡ true
    → not (clashes e (is_unbounded t)) ≡ false
    → OpIsNested (repeats t p) ⊎ Clash e (λ bad. OpHasRepeat bad (repeats t p))
unfolding clashes is_unbounded
clash-of none t p many h = absurd (cc h)
clash-of (some true) t p many h = inr (itself many refl)
clash-of (some false) unbounded p many h = inr (itself many refl)
clash-of (some false) (at_most n) p many h = absurd (cc h)

-- The clash with what is around a repeat, or with the repeat itself.
inner-of :
    (e : Option Bool) (t : Times) (p : Pattern)
    → is_many t ≡ true
    → IsNested p ⊎ HasRepeat (λ u. within e (is_unbounded t) || u ≡ true) p
    → OpIsNested (repeats t p) ⊎ Clash e (λ bad. OpHasRepeat bad (repeats t p))
unfolding within
inner-of e t p many (inl x) = inl (inside x)
inner-of none t p many (inr y) = inl (pair many y)
inner-of (some false) t p many (inr y) = inl (pair many y)
inner-of (some true) t p many (inr y) = inr (below y)

mutual
  unfolding check

  pub check-finds :
      (e : Option Bool) (p : Pattern)
      → check e p ≡ false
      → IsNested p ⊎ Clash e (λ bad. HasRepeat bad p)
  check-finds e empty h = absurd (cc h)
  check-finds e (then_ o p) h = elim (and-cases (check_op e o) (check e p) h) [
    | inl a ↦ head-of e o p (op-finds e o a)
    | inr b ↦ tail-of e o p (check-finds e p b)
  ]

  op-finds :
      (e : Option Bool) (o : Op)
      → check_op e o ≡ false
      → OpIsNested o ⊎ Clash e (λ bad. OpHasRepeat bad o)
  op-finds e (repeats t p) h = elim (Bool-cases (is_many t)) [
    | inl many ↦
        elim (and-cases (not (clashes e (is_unbounded t)))
          (check (some (within e (is_unbounded t))) p) (simp many at h)) [
            | inl a ↦ clash-of e t p many a
            | inr b ↦ inner-of e t p many (check-finds (some (within e (is_unbounded t))) p b)
          ]
    | inr few ↦ few-of e t p (check-finds e p (simp few at h))
  ]
  op-finds e (atomic cs) h = atomic-of e cs (some-finds none cs h)
  op-finds e (plain cs) h = plain-of e cs (some-finds e cs h)

  some-finds :
      (e : Option Bool) (cs : Children)
      → check_children e cs ≡ false
      → SomeIsNested cs ⊎ Clash e (λ bad. SomeHasRepeat bad cs)
  some-finds e no_more h = absurd (cc h)
  some-finds e (child p cs) h = elim (and-cases (check e p) (check_children e cs) h) [
    | inl a ↦ first-of e p cs (check-finds e p a)
    | inr b ↦ rest-of e p cs (some-finds e cs b)
  ]
