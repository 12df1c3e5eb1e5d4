-- ===== src/Tools/Patch/Listed.antt =====
-- Which patches are listed.
use ida_mcp.Prelude.{
  append_nil, append_assoc, ℕ, zero, suc, ◌≤◌, ◌<◌, ◌≡◌, refl, ap, sym, ◌∙◌, inl, inr, Bool, List,
  [], ◌∷◌, ◌++◌, length, take, keep, length-append, length-take, leb, arith, Bool-cases,
}
use ida_mcp.Tools.Patch.{Database, differs, scan, scan_all, span, list_patches, max_patches}

-- The addresses that are looked at, in order.
abbrev pub addresses : ℕ → ℕ → List ℕ
addresses ea zero = []
addresses ea (suc n) = ea ∷ addresses (suc ea) n

abbrev pub looked_at : List (ℕ × ℕ) → List ℕ
looked_at [] = []
looked_at ((start, end_) ∷ segments) = addresses start (span start end_) ++ looked_at segments

take-length : (n : ℕ) (xs ys : List ℕ) → length xs ≡ n → take n (xs ++ ys) ≡ xs
take-length zero [] ys h = refl
take-length zero (x ∷ xs) ys h = absurd (omega arith)
take-length (suc n) [] ys h = absurd (omega arith)
take-length (suc n) (x ∷ xs) ys h = ap (λ us. x ∷ us) (take-length n xs ys (omega arith))

take-all : (n : ℕ) (xs : List ℕ) → length xs ≤ n → take n xs ≡ xs
take-all zero [] h = refl
take-all zero (x ∷ xs) h = absurd (omega arith)
take-all (suc n) [] h = refl
take-all (suc n) (x ∷ xs) h = ap (λ us. x ∷ us) (take-all n xs (omega arith))

keep-append : (p : ℕ → Bool) (xs ys : List ℕ) → keep p (xs ++ ys) ≡ keep p xs ++ keep p ys
keep-append p [] ys = refl
keep-append p (x ∷ xs) ys = elim (Bool-cases (p x)) [
  | inl e ↦ rw e (ap (λ us. x ∷ us) (keep-append p xs ys))
  | inr e ↦ rw e (keep-append p xs ys)
]

take-enough : (n : ℕ) (xs ys : List ℕ) → n ≤ length xs → take n (xs ++ ys) ≡ take n xs
take-enough zero [] ys h = refl
take-enough zero (x ∷ xs) ys h = refl
take-enough (suc n) [] ys h = absurd (omega arith)
take-enough (suc n) (x ∷ xs) ys h = ap (λ us. x ∷ us) (take-enough n xs ys (omega arith))

module _ {D : Type 0} (db : Database D) (d : D) where
  -- From so many patches already found, fewer than the bound.
  scan-takes :
      (n ea : ℕ) (found : List ℕ)
      → length found < max_patches
      → scan db d n ea found ≡ take max_patches (found ++ keep (differs db d) (addresses ea n))
  unfolding scan
  scan-takes zero ea found room =
      sym (rw (append_nil found) (take-all max_patches found (omega arith)))
  scan-takes (suc n) ea found room = elim (Bool-cases (differs db d ea)) [
    | inr e ↦ rw (e, scan) (scan-takes n (suc ea) found room)
    | inl e ↦
        let assoc = append_assoc found (ea ∷ []) (keep (differs db d) (addresses (suc ea) n)) in
        elim (Bool-cases (leb max_patches (length (found ++ ea ∷ [])))) [
          | inl f ↦
              rw (e, f, scan)
                (sym (
                  ap (take max_patches) (sym assoc)
                  ∙ take-length max_patches (found ++ ea ∷ [])
                      (keep (differs db d) (addresses (suc ea) n))
                      (ground (arith, length-append found (ea ∷ [])))))
          | inr f ↦
              rw (e, f, scan)
                (scan-takes n (suc ea) (found ++ ea ∷ []) (ground arith)
                  ∙ ap (take max_patches) assoc)
        ]
  ]

  scan_all-takes :
      (segments : List (ℕ × ℕ)) (found : List ℕ)
      → length found < max_patches
      → scan_all db d segments found
        ≡ take max_patches (found ++ keep (differs db d) (looked_at segments))
  unfolding scan_all
  scan_all-takes [] found room =
      sym (rw (append_nil found) (take-all max_patches found (omega arith)))
  scan_all-takes ((start, end_) ∷ segments) found room =
      let here = keep (differs db d) (addresses start (span start end_)) in
      let later = keep (differs db d) (looked_at segments) in
      let scanned = scan-takes (span start end_) start found room in
      let split : found ++ keep (differs db d) (looked_at ((start, end_) ∷ segments))
          ≡ (found ++ here) ++ later =
        ap (λ us. found ++ us)
          (keep-append (differs db d) (addresses start (span start end_)) (looked_at segments))
        ∙ sym (append_assoc found here later) in
      let size = length-take max_patches (found ++ here) in
      rw (scanned, split)
        (elim (Bool-cases (leb max_patches (length (take max_patches (found ++ here))))) [
          | inl e ↦ rw e (sym (take-enough max_patches (found ++ here) later (ground arith)))
          | inr e ↦
              let all = take-all max_patches (found ++ here) (ground arith) in
              rw e (
                scan_all-takes segments (take max_patches (found ++ here)) (ground arith)
                ∙ ap (λ us. take max_patches (us ++ later)) all)
        ])

-- The patches that are listed are the first 1000 addresses, of those that are looked at, whose byte is
-- not the original one.
pub list_patches-takes :
    {D : Type 0} (db : Database D) (d : D) (segments : List (ℕ × ℕ))
    → list_patches db d segments ≡ take max_patches (keep (differs db d) (looked_at segments))
unfolding list_patches
list_patches-takes db d segments = scan_all-takes db d segments [] (omega arith)
