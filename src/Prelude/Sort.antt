-- ===== src/Prelude/Sort.antt =====
-- Python's sorted.
use mathlib.Core.List.{Memᴰ}
use mathlib.Core.List.Memᴰ
use mathlib.Core.Logic.{◌⊎◌, inl, inr, ⊎_elim, ◌↔◌}
use mathlib.Core.Path.{◌≡◌, refl, ap, ◌∙◌}
use mathlib.Core.Bool.{Bool, true, false}
use mathlib.Core.List.{List, [], ◌∷◌}
use Prim.Native.Nat.{suc}
use native.Mathlib.Omega.{arith}
use ida_mcp.Prelude.Tests.{if◌then◌else◌, Bool-cases}
use ida_mcp.Prelude.Lists.{length}

module _ {ℓ} {A : Type ℓ} where
  -- list.sort keeps the order of equal keys, also in reverse: an element goes before the first that it may
  -- stand before.
  unfoldable pub inserted : (A → A → Bool) → A → List A → List A
  inserted le r [] = r ∷ []
  inserted le r (x ∷ xs) = let rest = inserted le r xs in if le r x then r ∷ x ∷ xs else x ∷ rest

  unfoldable pub sort : (A → A → Bool) → List A → List A
  unfolding inserted
  sort le [] = []
  sort le (r ∷ rs) = inserted le r (sort le rs)

  -- Each element may stand before the next one.
  abbrev pub IsSorted : (A → A → Bool) → List A → Type 0
  IsSorted le [] = Unit
  IsSorted le (r ∷ []) = Unit
  IsSorted le (r ∷ x ∷ xs) = (le r x ≡ true) × IsSorted le (x ∷ xs)

module _ {ℓ} {A : Type ℓ} (le : A → A → Bool)
    (total : (a b : A) → le a b ≡ false → le b a ≡ true) where
  -- What comes first after an insertion.
  inserted-IsSorted_behind :
      (y r : A) (xs : List A)
      → IsSorted le (y ∷ xs)
      → le y r ≡ true
      → IsSorted le (y ∷ inserted le r xs)
  unfolding inserted
  inserted-IsSorted_behind y r [] h first = (first, tt)
  inserted-IsSorted_behind y r (x ∷ xs) h first = elim (Bool-cases (le r x)) [
    | inl e ↦ rw e (first, (e, h.1))
    | inr e ↦ rw e (h.0, inserted-IsSorted_behind x r xs h.1 (total r x e))
  ]

  inserted-IsSorted : (r : A) (xs : List A) → IsSorted le xs → IsSorted le (inserted le r xs)
  unfolding inserted
  inserted-IsSorted r [] h = tt
  inserted-IsSorted r (x ∷ xs) h = elim (Bool-cases (le r x)) [
    | inl e ↦ rw e (e, h)
    | inr e ↦ rw e (inserted-IsSorted_behind x r xs h (total r x e))
  ]

  pub sort-IsSorted : (rs : List A) → IsSorted le (sort le rs)
  unfolding sort
  sort-IsSorted [] = tt
  sort-IsSorted (r ∷ rs) = inserted-IsSorted r (sort le rs) (sort-IsSorted rs)

  mem-cons_iff : (a x : A) (xs : List A) → Memᴰ a (x ∷ xs) ↔ ((a ≡ x) ⊎ Memᴰ a xs)
  mem-cons_iff a x xs = (Memᴰ.cases_cons, ⊎_elim Memᴰ.head Memᴰ.tail)

  mem-inserted : (a r : A) (xs : List A) → Memᴰ a (inserted le r xs) ↔ ((a ≡ r) ⊎ Memᴰ a xs)
  unfolding inserted
  mem-inserted a r [] = mem-cons_iff a r []
  mem-inserted a r (x ∷ xs) = elim (Bool-cases (le r x)) [
    | inl e ↦ rw e (mem-cons_iff a r (x ∷ xs))
    | inr e ↦ rw e (
        ground
          (arith, mem-cons_iff a x (inserted le r xs), mem-inserted a r xs, mem-cons_iff a x xs))
  ]

  pub mem-sort : (a : A) (rs : List A) → Memᴰ a (sort le rs) ↔ Memᴰ a rs
  unfolding sort
  mem-sort a [] = (λ m. m, λ m. m)
  mem-sort a (r ∷ rs) =
      ground (arith, mem-inserted a r (sort le rs), mem-sort a rs, mem-cons_iff a r rs)

  length-inserted : (r : A) (xs : List A) → length (inserted le r xs) ≡ suc (length xs)
  unfolding inserted
  length-inserted r [] = refl
  length-inserted r (x ∷ xs) = ground (arith, length-inserted r xs)

  pub length-sort : (rs : List A) → length (sort le rs) ≡ length rs
  unfolding sort
  length-sort [] = refl
  length-sort (r ∷ rs) = length-inserted r (sort le rs) ∙ ap suc (length-sort rs)
