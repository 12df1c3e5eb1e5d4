-- ===== src/Tools/Regex/Paths.antt =====
-- The paths in a pattern from a repeat to the repeats inside it.
use ida_mcp.Prelude.{◌≡◌, Bool, true, ◌||◌}
use ida_mcp.Tools.Regex.{
  Times, Pattern, then_, Op, repeats, atomic, plain, Children, child, is_many, is_unbounded,
}

-- Inside P stands, behind no atomic construct, a repeat of more than one round that `bad` holds of
-- (by whether it is unbounded).
mutual
  pub data HasRepeat (bad : Bool → Type 0) : Pattern → Type 0 where
    here : {o : Op} {p : Pattern} → OpHasRepeat bad o → HasRepeat bad (then_ o p)
    further : {o : Op} {p : Pattern} → HasRepeat bad p → HasRepeat bad (then_ o p)

  pub data OpHasRepeat (bad : Bool → Type 0) : Op → Type 0 where
    itself :
        {t : Times} {p : Pattern}
        → is_many t ≡ true
        → bad (is_unbounded t)
        → OpHasRepeat bad (repeats t p)
    below : {t : Times} {p : Pattern} → HasRepeat bad p → OpHasRepeat bad (repeats t p)
    in_plain : {cs : Children} → SomeHasRepeat bad cs → OpHasRepeat bad (plain cs)

  pub data SomeHasRepeat (bad : Bool → Type 0) : Children → Type 0 where
    this : {p : Pattern} {cs : Children} → HasRepeat bad p → SomeHasRepeat bad (child p cs)
    that : {p : Pattern} {cs : Children} → SomeHasRepeat bad cs → SomeHasRepeat bad (child p cs)

-- Somewhere in P stands a repeat of more than one round with such a repeat inside it, where one of
-- the two is unbounded.
mutual
  pub data IsNested : Pattern → Type 0 where
    at_head : {o : Op} {p : Pattern} → OpIsNested o → IsNested (then_ o p)
    after_head : {o : Op} {p : Pattern} → IsNested p → IsNested (then_ o p)

  pub data OpIsNested : Op → Type 0 where
    pair :
        {t : Times} {p : Pattern}
        → is_many t ≡ true
        → HasRepeat (λ u. is_unbounded t || u ≡ true) p
        → OpIsNested (repeats t p)
    inside : {t : Times} {p : Pattern} → IsNested p → OpIsNested (repeats t p)
    in_atomic : {cs : Children} → SomeIsNested cs → OpIsNested (atomic cs)
    among : {cs : Children} → SomeIsNested cs → OpIsNested (plain cs)

  pub data SomeIsNested : Children → Type 0 where
    in_this : {p : Pattern} {cs : Children} → IsNested p → SomeIsNested (child p cs)
    in_that : {p : Pattern} {cs : Children} → SomeIsNested cs → SomeIsNested (child p cs)
