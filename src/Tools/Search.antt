-- ===== src/Tools/Search.antt =====
-- Searching for bytes, page by page (api_analysis.py: find_bytes). IDA's search is a parameter: the first
-- match at an address or behind it, none for BADADDR.
pub mod Pages
use ida_mcp.Prelude.{
  ℕ, zero, suc, ◌+◌, ◌-◌, Bool, true, false, ◌||◌, Option, none, some, List, [], ◌∷◌, ◌++◌, ltb,
  leb, length, if◌then◌else◌,
}
use ida_mcp.Prelude.Int.{ℤ, pos, negsuc}
use ida_mcp.Text.{Text, is_space, is_empty}

pub data Found : Type 0 where
  matches : List ℕ → Bool → Found  -- the page, and whether more follow
  empty_pattern : Found
  spent : Found  -- the fuel ran out

-- `started`: a word was seen; `gap`: white space was seen behind it.
unfoldable pub squeezed : Bool → Bool → Text → Text
squeezed started gap [] = []
squeezed started gap (c ∷ t) =
    let space = squeezed started started t in
    let word = squeezed true false t in
    if is_space c then space else if gap then b' ' ∷ c ∷ word else c ∷ word

-- " ".join(pattern.split())
unfoldable pub norm_pattern : Text → Text
unfolding squeezed
norm_pattern = squeezed false false

unfoldable pub is_some : Option ℕ → Bool
is_some none = false
is_some (some ea) = true

module _ (find : ℕ → Option ℕ) (limit offset : ℕ) where
  unfoldable pub search : ℕ → ℕ → ℕ → List ℕ → Found
  unfolding is_some
  search zero ea skipped page = elim (find ea) [ none ↦ matches page false | some at_ ↦ spent ]
  search (suc fuel) ea skipped page = elim (find ea) [
    | none ↦ matches page false
    | some hit ↦
        let skip = search fuel (suc hit) (suc skipped) page in
        let page' = page ++ hit ∷ [] in
        let more = search fuel (suc hit) skipped page' in
        if ltb skipped offset
        then skip
        else if leb limit (length page')
        then matches page' (is_some (find (suc hit)))
        else more
  ]

-- A limit that is not positive, or is too large, is 10000; a negative offset is 0.
unfoldable pub limit_of : ℤ → ℕ
limit_of (pos n) = if leb n 0 || ltb 10000 n then 10000 else n
limit_of (negsuc n) = 10000

abbrev pub offset_of : ℤ → ℕ
offset_of (pos n) = n
offset_of (negsuc n) = 0

-- From min_ea to max_ea. Each round passes an address, so this fuel is enough.
unfoldable pub find_bytes : (Text → ℕ → Option ℕ) → Text → ℕ → ℕ → ℤ → ℤ → Found
unfolding search limit_of norm_pattern
find_bytes find pattern min_ea max_ea limit offset =
    if is_empty (norm_pattern pattern)
    then empty_pattern
    else search (find (norm_pattern pattern)) (limit_of limit) (offset_of offset) (max_ea - min_ea)
        min_ea 0 []
