-- ===== src/Tools/Search/Pages.antt =====
-- A page of a search is a slice of all matches.
use ida_mcp.Prelude.{
  append_nil, append_assoc, ℕ, zero, suc, ◌+◌, ◌-◌, ◌≤◌, ◌<◌, ◌≡◌, refl, ap, sym, ◌∙◌, inl, inr,
  false, Option, none, some, List, [], ◌∷◌, ◌++◌, arith, ltb, leb, length, take, drop,
  length-append, Bool-cases, Option-cases,
}
use ida_mcp.Prelude.Int.{ℤ, pos, negsuc}
use ida_mcp.Text.{Text, is_empty}
use ida_mcp.Tools.Search.{
  norm_pattern, Found, matches, is_some, search, limit_of, offset_of, find_bytes,
}

take-nil : (n : ℕ) → Path (List ℕ) (take n []) []
take-nil zero = refl
take-nil (suc n) = refl

drop-nil : (n : ℕ) → Path (List ℕ) (drop n []) []
drop-nil zero = refl
drop-nil (suc n) = refl

-- IDA's answer lies at the address asked for or behind it, and before the end of the range.
abbrev pub IsSearch : (ℕ → Option ℕ) → ℕ → Type 0
IsSearch find max_ea = (ea hit : ℕ) → find ea ≡ some hit → (ea ≤ hit) × (hit < max_ea)

-- Every match from an address on: the first, and those behind it.
abbrev pub all_from : (ℕ → Option ℕ) → ℕ → ℕ → List ℕ
all_from find zero ea = []
all_from find (suc fuel) ea = elim (find ea) [
  | none ↦ []
  | some hit ↦ hit ∷ all_from find fuel (suc hit)
]

module _ (find : ℕ → Option ℕ) (max_ea : ℕ) (is : IsSearch find max_ea) where
  find-none : (ea : ℕ) → max_ea ≤ ea → find ea ≡ none
  find-none ea h = elim (Option-cases (find ea)) [
    | inl e ↦ e
    | inr (hit, e) ↦ absurd (omega (arith, is ea hit e))
  ]

  all_from-some :
      (fuel ea : ℕ)
      → max_ea - ea ≤ fuel
      → is_some (find ea) ≡ ltb 0 (length (all_from find fuel ea))
  unfolding is_some
  all_from-some zero ea h = rw (find-none ea (omega arith)) refl
  all_from-some (suc fuel) ea h = elim (Option-cases (find ea)) [
    | inl e ↦ rw (e, all_from) refl
    | inr (hit, e) ↦ rw (e, all_from) (ground arith)
  ]

  module _ (limit offset : ℕ) where
    -- What is still to be reported, of the matches from here on.
    abbrev rest_of : ℕ → List ℕ → List ℕ
    rest_of skipped xs = drop (offset - skipped) xs

    abbrev paged : ℕ → List ℕ → List ℕ → Found
    paged skipped page xs =
        matches (page ++ take (limit - length page) (rest_of skipped xs))
          (ltb (limit - length page) (length (rest_of skipped xs)))

    paged-nil : (skipped : ℕ) (page : List ℕ) → paged skipped page [] ≡ matches page false
    paged-nil skipped page =
        rw (drop-nil (offset - skipped), take-nil (limit - length page), append_nil page)
          (ap (matches page) (ground arith))

    paged-skip :
        (skipped hit : ℕ) (page xs : List ℕ)
        → skipped < offset
        → paged skipped page (hit ∷ xs) ≡ paged (suc skipped) page xs
    paged-skip skipped hit page xs h =
        let one : offset - skipped ≡ suc (offset - suc skipped) = omega arith in rw one refl

    paged-more :
        (skipped hit : ℕ) (page xs : List ℕ)
        → offset ≤ skipped
        → length page + 1 < limit
        → paged skipped page (hit ∷ xs) ≡ paged skipped (page ++ hit ∷ []) xs
    paged-more skipped hit page xs h room =
        let all : offset - skipped ≡ 0 = omega arith in
        let left = limit - length (page ++ hit ∷ []) in
        let one : limit - length page ≡ suc left = omega (arith, length-append page (hit ∷ [])) in
        rw (all, one, append_assoc page (hit ∷ []) (take left xs))
          (ap (matches (page ++ hit ∷ take left xs)) (ground arith))

    paged-last :
        (skipped hit : ℕ) (page xs : List ℕ)
        → offset ≤ skipped
        → length page + 1 ≡ limit
        → paged skipped page (hit ∷ xs) ≡ matches (page ++ hit ∷ []) (ltb 0 (length xs))
    paged-last skipped hit page xs h full =
        let all : offset - skipped ≡ 0 = omega arith in
        let one : limit - length page ≡ 1 = omega arith in
        rw (all, one) (ap (matches (page ++ hit ∷ [])) (ground arith))

    search-paged :
        (fuel ea skipped : ℕ) (page : List ℕ)
        → max_ea - ea ≤ fuel
        → length page < limit
        → search find limit offset fuel ea skipped page ≡ paged skipped page (all_from find fuel ea)
    unfolding search
    search-paged zero ea skipped page enough room =
        rw (find-none ea (omega arith), search) (sym (paged-nil skipped page))
    search-paged (suc fuel) ea skipped page enough room = elim (Option-cases (find ea)) [
      | inl e ↦ rw (e, search, all_from) (sym (paged-nil skipped page))
      | inr (hit, e) ↦ elim (Bool-cases (ltb skipped offset)) [
        | inl f ↦
            rw (e, f, search, all_from)
              (search-paged fuel (suc hit) (suc skipped) page (omega (arith, is ea hit e)) room
                ∙ sym (paged-skip skipped hit page _ (ground arith)))
        | inr f ↦ elim (Bool-cases (leb limit (length (page ++ hit ∷ [])))) [
          | inl g ↦
              rw (e, f, g, search, all_from)
                (ap (matches (page ++ hit ∷ []))
                    (all_from-some fuel (suc hit) (omega (arith, is ea hit e)))
                  ∙ sym (
                      paged-last skipped hit page _ (ground arith)
                        (ground (arith, length-append page (hit ∷ [])))))
          | inr g ↦
              rw (e, f, g, search, all_from)
                (search-paged fuel (suc hit) skipped (page ++ hit ∷ []) (omega (arith, is ea hit e))
                    (ground arith)
                  ∙ sym (
                      paged-more skipped hit page _ (ground arith)
                        (ground (arith, length-append page (hit ∷ [])))))
        ]
      ]
    ]

limit_of-pos : (limit : ℤ) → 0 < limit_of limit
unfolding limit_of
limit_of-pos (pos n) = ground arith
limit_of-pos (negsuc n) = omega arith

-- A page of a search holds the matches from the offset on, as many as the limit admits, and says that
-- more follow exactly where they do: the search returns, and passes and repeats none, where the pattern
-- is not blank and IDA's answers lie in the range.
pub find_bytes-slices :
    (find : Text → ℕ → Option ℕ) (pattern : Text) (min_ea max_ea : ℕ) (limit offset : ℤ)
    → is_empty (norm_pattern pattern) ≡ false
    → IsSearch (find (norm_pattern pattern)) max_ea
    → let found = all_from (find (norm_pattern pattern)) (max_ea - min_ea) min_ea in
      find_bytes find pattern min_ea max_ea limit offset
      ≡ matches
          (take (limit_of limit) (drop (offset_of offset) found))
          (ltb (limit_of limit) (length (drop (offset_of offset) found)))
unfolding find_bytes
find_bytes-slices find pattern min_ea max_ea limit offset some_word is =
    let all_of : (n : ℕ) → n - 0 ≡ n = λ n. omega arith in
    let whole =
      search-paged (find (norm_pattern pattern)) max_ea is (limit_of limit) (offset_of offset)
        (max_ea - min_ea) min_ea 0 [] (omega arith) (limit_of-pos limit) in
    rw (some_word, find_bytes) (rw (all_of (limit_of limit), all_of (offset_of offset)) at whole)
