-- ===== src/Tools/Query/Filters.antt =====
-- What the filters and the order of a query say.
use ida_mcp.Prelude.{
  ℕ, nat_eq, ◌≡◌, ◌≢◌, ◌≤◌, sym, if◌then◌else◌, refl, ap, ◌∙◌, ◌↔◌, inl, inr, Bool, true, false,
  Option, some, List, [], ◌∷◌, text_eq, Bool-cases, arith,
}
use ida_mcp.Prelude.Sort.{IsSorted}
use ida_mcp.Text.{Text, lit, lower}
use ida_mcp.Instances.{text_ltb}
use ida_mcp.Prelude.Int.{ℤ, pos, negsuc}
use mathlib.Core.Option
use ida_mcp.Tools.Query.{
  Row, Query, by_name, at_least, at_most, by_type, passes, in_order, before, matcher,
}

text_ltb-asym : (a b : Text) → text_ltb a b ≡ true → text_ltb b a ≡ false
unfolding text_ltb
text_ltb-asym [] [] h = refl
text_ltb-asym [] (c ∷ b) h = refl
text_ltb-asym (c ∷ a) [] h = absurd (cc h)
text_ltb-asym (c ∷ a) (d ∷ b) h = ground (arith, text_ltb-asym a b)

in_order-total : (by : Text) (a b : Row) → in_order by a b ≡ false → in_order by b a ≡ true
unfolding in_order
in_order-total by a b h = ground (arith, text_ltb-asym (lower b.name) (lower a.name))

pub before-total : (q : Query) (a b : Row) → before q a b ≡ false → before q b a ≡ true
unfolding before
before-total q a b h = ground (arith, in_order-total q.sort_by a b, in_order-total q.sort_by b a)

-- The tests that a row has to pass, each only where it was asked for.
pub record Passes (fnmatch : Text → Text → Bool) (compile : Text → Option (Text → Bool)) (q : Query)
    (r : Row) : Type 0 where
  pub by_glob : q.filter_pattern ≢ [] → fnmatch r.name q.filter_pattern ≡ true
  pub by_regex :
      (rx : Text → Bool) → q.name_regex ≢ [] → compile q.name_regex ≡ some rx → rx r.name ≡ true
  pub not_smaller : (n : ℕ) → q.min_size ≡ pos n → n ≤ r.size
  pub not_larger : (n : ℕ) → q.max_size ≡ pos n → r.size ≤ n
  pub typed : q.has_type ≡ lit "true" → r.has_type ≡ true
  pub untyped : q.has_type ≡ lit "false" → r.has_type ≡ false

-- `a` may stand before `b` in rising order of the key.
pub record Precedes (by : Text) (a b : Row) : Type 0 where
  pub names : by ≡ lit "name" → text_ltb (lower b.name) (lower a.name) ≡ false
  pub sizes : by ≡ lit "size" → a.size ≤ b.size
  pub addresses : by ≢ lit "name" → by ≢ lit "size" → a.addr ≤ b.addr

abbrev pub Ordered : Query → Row → Row → Type 0
Ordered q a b = if q.descending then Precedes q.sort_by b a else Precedes q.sort_by a b

abbrev pub AllOrdered : Query → List Row → Type 0
AllOrdered q [] = Unit
AllOrdered q (r ∷ []) = Unit
AllOrdered q (r ∷ x ∷ xs) = Ordered q r x × AllOrdered q (x ∷ xs)

pos_inj : {m n : ℕ} → Path ℤ (pos m) (pos n) → m ≡ n
pos_inj e = cc e

by_glob_iff :
    (fnmatch : Text → Text → Bool) (pattern : Text) (r : Row)
    → (by_name fnmatch pattern r ≡ true) ↔ (pattern ≢ [] → fnmatch r.name pattern ≡ true)
unfolding by_name
by_glob_iff fnmatch [] r = (λ _ no. absurd (no refl), λ _. refl)
by_glob_iff fnmatch (c ∷ t) r = (λ h _. h, λ h. h (λ e. absurd (cc e)))

at_least_iff : (i : ℤ) (r : Row) → (at_least i r ≡ true) ↔ ((n : ℕ) → i ≡ pos n → n ≤ r.size)
unfolding at_least
at_least_iff (pos k) r =
    (λ h n e. rw (sym (pos_inj e)) (ground (arith, h)), λ h. ground (arith, h k refl))
at_least_iff (negsuc k) r = (λ h n e. absurd (cc e), λ _. refl)

at_most_iff : (i : ℤ) (r : Row) → (at_most i r ≡ true) ↔ ((n : ℕ) → i ≡ pos n → r.size ≤ n)
unfolding at_most
at_most_iff (pos k) r =
    (λ h n e. rw (sym (pos_inj e)) (ground (arith, h)), λ h. ground (arith, h k refl))
at_most_iff (negsuc k) r = (λ h n e. absurd (cc e), λ _. refl)

true_not_false : lit "true" ≢ lit "false"
unfolding lit
true_not_false e = cc e

by_type_iff :
    (wanted : Text) (r : Row)
    → (by_type wanted r ≡ true)
      ↔ ((wanted ≡ lit "true" → r.has_type ≡ true) × (wanted ≡ lit "false" → r.has_type ≡ false))
unfolding by_type
by_type_iff wanted r = ground (arith, true_not_false)

matcher-regex :
    (compile : Text → Option (Text → Bool)) (regex : Text) (matches : Text → Bool) (name : Text)
    → matcher compile regex ≡ some matches
    → (matches name ≡ true)
      ↔ ((rx : Text → Bool) → regex ≢ [] → compile regex ≡ some rx → rx name ≡ true)
unfolding matcher
matcher-regex compile [] matches name e =
    (λ _ rx no. absurd (no refl), λ _. ap (λ (f : Text → Bool). f name) (sym (Option.some_inj.0 e)))
matcher-regex compile (c ∷ t) matches name e = (
  λ h rx _ f. ap (λ (g : Text → Bool). g name) (Option.some_inj.0 (sym f ∙ e)) ∙ h,
  λ h. h matches (λ f. absurd (cc f)) e,
)

pub passes_iff :
    (fnmatch : Text → Text → Bool) (compile : Text → Option (Text → Bool)) (q : Query)
    (matches : Text → Bool) (r : Row)
    → matcher compile q.name_regex ≡ some matches
    → (passes fnmatch q matches r ≡ true) ↔ Passes fnmatch compile q r
unfolding passes
passes_iff fnmatch compile q matches r e =
    let glob = by_glob_iff fnmatch q.filter_pattern r in
    let regex = matcher-regex compile q.name_regex matches r.name e in
    let least = at_least_iff q.min_size r in
    let most = at_most_iff q.max_size r in
    let kind = by_type_iff q.has_type r in
    (
      λ h. record {
        by_glob = glob.0 (ground arith);
        by_regex = regex.0 (ground arith);
        not_smaller = least.0 (ground arith);
        not_larger = most.0 (ground arith);
        typed = (kind.0 (ground arith)).0;
        untyped = (kind.0 (ground arith)).1;
      },
      λ h.
          let a = glob.1 h.by_glob in
          let b = regex.1 h.by_regex in
          let c = least.1 h.not_smaller in
          let d = most.1 h.not_larger in
          let f = kind.1 (h.typed, h.untyped) in ground (arith, a, b, c, d, f),
    )

abbrev first_char : Text → ℕ
first_char [] = 0
first_char (c ∷ t) = c

name_not_size : lit "name" ≢ lit "size"
unfolding lit
name_not_size e = let same : 110 ≡ 115 = ap first_char e in absurd (omega (arith, same))

in_order-Precedes : (by : Text) (a b : Row) → in_order by a b ≡ true → Precedes by a b
unfolding in_order
in_order-Precedes by a b h = record {
  names = λ e. ground (arith, h, e);
  sizes = λ e. ground (arith, h, e, name_not_size);
  addresses = λ e f. ground (arith, h, e, f);
}

before-Ordered : (q : Query) (a b : Row) → before q a b ≡ true → Ordered q a b
unfolding before
before-Ordered q a b h = elim (Bool-cases q.descending) [
  | inl e ↦ rw e (in_order-Precedes q.sort_by b a (rw e at h))
  | inr e ↦ rw e (in_order-Precedes q.sort_by a b (rw e at h))
]

pub IsSorted-AllOrdered : (q : Query) (rs : List Row) → IsSorted (before q) rs → AllOrdered q rs
IsSorted-AllOrdered q [] h = tt
IsSorted-AllOrdered q (r ∷ []) h = tt
IsSorted-AllOrdered q (r ∷ x ∷ xs) h =
    (before-Ordered q r x h.0, IsSorted-AllOrdered q (x ∷ xs) h.1)
