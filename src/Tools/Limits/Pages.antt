-- ===== src/Tools/Limits/Pages.antt =====
-- Where a page stands in the rows, and that what is cut off is told.
use ida_mcp.Prelude.{
  ℕ, zero, suc, ◌≤◌, ◌≡◌, refl, sym, ◌∙◌, inl, inr, ap, List, [], ◌∷◌, ◌++◌, min, max, ◌-◌,
  length-append, leb, ltb, arith, length, take, drop, length-take, length-drop, Bool-cases,
}
use ida_mcp.Prelude.Int.{ℤ, pos, negsuc}
use ida_mcp.Tools.Limits.{limit_items, index, slice}

index-le : (n : ℕ) (i : ℤ) → index n i ≤ n
index-le n (pos k) = omega arith
index-le n (negsuc k) = omega arith

module _ {ℓ} {A : Type ℓ} where
  take-drop : (n : ℕ) (xs : List A) → take n xs ++ drop n xs ≡ xs
  take-drop zero xs = refl
  take-drop (suc n) [] = refl
  take-drop (suc n) (x ∷ xs) = ap (λ t. x ∷ t) (take-drop n xs)

  -- A slice stands in the list between what is before its first index and what is left.
  pub slice-splits :
      (rows : List A) (a b : ℤ)
      → (front : List A) × (back : List A) × (rows ≡ front ++ (slice rows a b ++ back))
        × (length front ≡ index (length rows) a)
        × (length (front ++ slice rows a b) ≡ max (index (length rows) a) (index (length rows) b))
  slice-splits rows a b =
      let n = length rows in
      let i = index n a in
      let j = index n b in
      let inside : i ≤ n = index-le n a in
      let bounded : j ≤ n = index-le n b in
      let front = take i rows in
      let rest = drop i rows in
      let before : length front ≡ i = omega (arith, length-take i rows, inside) in
      (
        front,
        drop (j - i) rest,
        sym (ap (λ t. front ++ t) (take-drop (j - i) rest) ∙ take-drop i rows),
        before,
        omega (
          arith,
          length-append front (slice rows a b),
          before,
          length-take (j - i) rest,
          length-drop i rows,
          bounded,
        ),
      )

  -- A list that is capped is a front of what was there, no longer than the cap, and told to be cut
  -- exactly where it is shorter than it was.
  pub limit_items-length :
      (xs : List A) (n : ℕ)
      → (length (limit_items xs n).0 ≡ min n (length xs))
        × ((limit_items xs n).1 ≡ ltb n (length xs))
  unfolding limit_items
  limit_items-length xs n = elim (Bool-cases (leb (length xs) n)) [
    | inl e ↦ simp e (ground (arith, e), ground (arith, e))
    | inr e ↦ simp e (length-take n xs, ground (arith, e))
  ]
