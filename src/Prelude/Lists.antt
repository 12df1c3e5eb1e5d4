-- ===== src/Prelude/Lists.antt =====
-- Lists measured by native numbers, under the library's names.
use Prim.Native.Nat.{ℕ, zero, suc, ◌+◌, ◌-◌, ◌≤◌, min}
use mathlib.Core.Path.{◌≡◌, refl, ap}
use mathlib.Core.Bool.{Bool, true}
use mathlib.Core.List.{List, [], ◌∷◌, ◌++◌}
use mathlib.Core.Logic.{◌↔◌, inl, inr}
use mathlib.Core.Logic.Or
use mathlib.Core.List.{Mem, mem-cons, mem-cons_of_mem, not-mem-nil}
use native.Mathlib.Omega.{arith}
use ida_mcp.Prelude.Tests.{if◌then◌else◌, Bool-cases}

module _ {ℓ} {A : Type ℓ} where
  abbrev pub length : List A → ℕ
  length [] = 0
  length (x ∷ xs) = suc (length xs)

  abbrev pub take : ℕ → List A → List A
  take zero xs = []
  take (suc n) [] = []
  take (suc n) (x ∷ xs) = x ∷ take n xs

  abbrev pub drop : ℕ → List A → List A
  drop zero xs = xs
  drop (suc n) [] = []
  drop (suc n) (x ∷ xs) = drop n xs

  -- The elements that pass a test, in order.
  abbrev pub keep : (A → Bool) → List A → List A
  keep p [] = []
  keep p (x ∷ xs) = let rest = keep p xs in if p x then x ∷ rest else rest

  pub length-append : (xs ys : List A) → length (xs ++ ys) ≡ length xs + length ys
  length-append [] ys = omega arith
  length-append (x ∷ xs) ys = omega (arith, length-append xs ys)

  pub append_assoc : (xs ys zs : List A) → (xs ++ ys) ++ zs ≡ xs ++ (ys ++ zs)
  append_assoc [] ys zs = refl
  append_assoc (x ∷ xs) ys zs = ap (λ us. x ∷ us) (append_assoc xs ys zs)

  pub append_nil : (xs : List A) → xs ++ [] ≡ xs
  append_nil [] = refl
  append_nil (x ∷ xs) = ap (λ us. x ∷ us) (append_nil xs)

  pub length-take : (n : ℕ) (xs : List A) → length (take n xs) ≡ min n (length xs)
  length-take zero xs = omega arith
  length-take (suc n) [] = omega arith
  length-take (suc n) (x ∷ xs) = omega (arith, length-take n xs)

  pub length-drop : (n : ℕ) (xs : List A) → length (drop n xs) ≡ length xs - n
  length-drop zero xs = omega arith
  length-drop (suc n) [] = omega arith
  length-drop (suc n) (x ∷ xs) = omega (arith, length-drop n xs)

  pub length-keep-le : (p : A → Bool) (xs : List A) → length (keep p xs) ≤ length xs
  length-keep-le p [] = omega arith
  length-keep-le p (x ∷ xs) = ground (arith, length-keep-le p xs)

module _ {ℓ} {A : Type ℓ} where
  pub mem-keep :
      (p : A → Bool) (xs : List A) (a : A) → Mem a (keep p xs) ↔ (Mem a xs × (p a ≡ true))
  mem-keep p [] a = (λ m. absurd (not-mem-nil m), λ h. absurd (not-mem-nil h.0))
  mem-keep p (x ∷ xs) a = (
    λ m. elim (Bool-cases (p x)) [
      | inl e ↦
          Or.elim (hlevel) (mem-cons.0 (rw e at m)) (λ q. (mem-cons.1 (Or.inl q), rw q e))
            (λ r. (mem-cons_of_mem x ((mem-keep p xs a).0 r).0, ((mem-keep p xs a).0 r).1))
      | inr e ↦
          let r : Mem a (keep p xs) = rw e at m in
          (mem-cons_of_mem x ((mem-keep p xs a).0 r).0, ((mem-keep p xs a).0 r).1)
    ],
    λ (m, h). elim (Bool-cases (p x)) [
      | inl e ↦ rw e (
          Or.elim (hlevel) (mem-cons.0 m) (λ q. mem-cons.1 (Or.inl q))
            (λ r. mem-cons_of_mem x ((mem-keep p xs a).1 (r, h))))
      | inr e ↦ rw e (
          Or.elim (hlevel) (mem-cons.0 m) (λ q. absurd (cc (q, h, e)))
            (λ r. (mem-keep p xs a).1 (r, h)))
    ],
  )

abbrev pub All {ℓ κ} : {A : Type ℓ} → (A → Type κ) → List A → Type κ
All P [] = Unit
All P (x ∷ xs) = P x × All P xs
