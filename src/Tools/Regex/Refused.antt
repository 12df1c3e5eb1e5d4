-- ===== src/Tools/Regex/Refused.antt =====
-- The guard refuses every nested pattern.
use ida_mcp.Prelude.{◌≡◌, refl, Bool, true, false, ◌&&◌, ◌||◌, Option, none, some, if◌then◌else◌}
use ida_mcp.Tools.Regex.{
  Times, Pattern, empty, then_, Op, repeats, atomic, plain, Children, no_more, child, is_many,
  is_unbounded, clashes, within, check, check_op, check_children,
}
use ida_mcp.Tools.Regex.Paths.{
  HasRepeat, here, further, OpHasRepeat, itself, below, in_plain, SomeHasRepeat, this, that,
  IsNested, at_head, after_head, OpIsNested, pair, inside, in_atomic, among, SomeIsNested, in_this,
  in_that,
}

and-left : (a b : Bool) → a ≡ false → a && b ≡ false
and-left true b h = absurd (cc h)
and-left false b h = refl

and-right : (a b : Bool) → b ≡ false → a && b ≡ false
and-right true b h = h
and-right false b h = refl

same-if : (b x y : Bool) → x ≡ false → y ≡ false → (if b then x else y) ≡ false
same-if true x y p q = p
same-if false x y p q = q

or-more : (a b c : Bool) → a || c ≡ true → (a || b) || c ≡ true
or-more true b c h = refl
or-more false true c h = refl
or-more false false c h = h

-- A repeat that `bad` holds of is refused under an enclosing repeat that all the bad ones clash with.
mutual
  unfolding check clashes within

  check-clash :
      {bad : Bool → Type 0} (c : Bool)
      → ((u : Bool) → bad u → c || u ≡ true)
      → (p : Pattern) → HasRepeat bad p
      → check (some c) p ≡ false
  check-clash c h empty x = elim x [ ]
  check-clash c h (then_ o p) (here x) = and-left _ _ (op-clash c h o x)
  check-clash c h (then_ o p) (further x) = and-right _ _ (check-clash c h p x)

  op-clash :
      {bad : Bool → Type 0} (c : Bool)
      → ((u : Bool) → bad u → c || u ≡ true)
      → (o : Op) → OpHasRepeat bad o
      → check_op (some c) o ≡ false
  op-clash c h (repeats t p) (itself many x) = simp (many, h (is_unbounded t) x) refl
  op-clash c h (repeats t p) (below x) =
      same-if (is_many t) _ _
        (and-right _ _
          (check-clash (c || is_unbounded t) (λ u b. or-more c (is_unbounded t) u (h u b)) p x))
        (check-clash c h p x)
  op-clash c h (atomic cs) x = elim x [ ]
  op-clash c h (plain cs) (in_plain x) = some-clash c h cs x

  some-clash :
      {bad : Bool → Type 0} (c : Bool)
      → ((u : Bool) → bad u → c || u ≡ true)
      → (cs : Children) → SomeHasRepeat bad cs
      → check_children (some c) cs ≡ false
  some-clash c h no_more x = elim x [ ]
  some-clash c h (child p cs) (this x) = and-left _ _ (check-clash c h p x)
  some-clash c h (child p cs) (that x) = and-right _ _ (some-clash c h cs x)

or_self :
    (e : Option Bool) (t : Times) (u : Bool)
    → is_unbounded t || u ≡ true
    → within e (is_unbounded t) || u ≡ true
unfolding within
or_self none t u h = h
or_self (some true) t u h = refl
or_self (some false) t u h = h

mutual
  unfolding check

  pub check-nested : (e : Option Bool) (p : Pattern) → IsNested p → check e p ≡ false
  check-nested e empty x = elim x [ ]
  check-nested e (then_ o p) (at_head x) = and-left _ _ (op-nested e o x)
  check-nested e (then_ o p) (after_head x) = and-right _ _ (check-nested e p x)

  op-nested : (e : Option Bool) (o : Op) → OpIsNested o → check_op e o ≡ false
  op-nested e (repeats t p) (pair many x) =
      simp many (and-right _ _ (check-clash (within e (is_unbounded t)) (or_self e t) p x))
  op-nested e (repeats t p) (inside x) =
      same-if (is_many t) _ _ (and-right _ _ (check-nested _ p x)) (check-nested e p x)
  op-nested e (atomic cs) (in_atomic x) = some-nested none cs x
  op-nested e (plain cs) (among x) = some-nested e cs x

  some-nested : (e : Option Bool) (cs : Children) → SomeIsNested cs → check_children e cs ≡ false
  some-nested e no_more x = elim x [ ]
  some-nested e (child p cs) (in_this x) = and-left _ _ (check-nested e p x)
  some-nested e (child p cs) (in_that x) = and-right _ _ (some-nested e cs x)
