-- ===== src/Tools/Query.antt =====
-- Querying functions (api_query.py: func_query). What IDA lists, fnmatch and the search of a compiled
-- pattern are parameters.
pub mod Filters
pub mod Rows
use ida_mcp.Prelude.{
  ℕ, zero, suc, Bool, true, false, not, ◌&&◌, ◌||◌, Option, none, some, List, [], ◌∷◌, keep, leb,
  length, if◌then◌else◌, ◌==◌, text_eq,
}
use ida_mcp.Prelude.Int.{ℤ, pos, negsuc}
use ida_mcp.Prelude.Sort.{sort}
use ida_mcp.Text.{Text, lit, lower, is_empty}
use ida_mcp.Instances.{text_ltb}
use ida_mcp.Tools.Limits.{paginate}

pub record Row : Type 0 where
  pub addr : ℕ
  pub name : Text
  pub size : ℕ
  pub has_type : Bool

pub record Query : Type 0 where
  pub filter_pattern : Text
  pub name_regex : Text
  pub min_size : ℤ
  pub max_size : ℤ
  pub has_type : Text
  pub sort_by : Text
  pub descending : Bool
  pub offset : ℤ
  pub count : ℤ

-- Each filter, as a test of a row: one that was not asked for passes everything.
unfoldable pub by_name : (Text → Text → Bool) → Text → Row → Bool
by_name fnmatch pattern r = is_empty pattern || fnmatch r.name pattern

unfoldable pub at_least : ℤ → Row → Bool
at_least (pos n) r = leb n r.size
at_least (negsuc n) r = true

unfoldable pub at_most : ℤ → Row → Bool
at_most (pos n) r = leb r.size n
at_most (negsuc n) r = true

abbrev pub same : Bool → Bool → Bool
same true b = b
same false b = not b

unfoldable pub by_type : Text → Row → Bool
by_type wanted r =
    if wanted == lit "true"
    then r.has_type
    else if wanted == lit "false"
    then not r.has_type
    else true

unfoldable pub passes : (Text → Text → Bool) → Query → (Text → Bool) → Row → Bool
unfolding by_name at_least at_most by_type
passes fnmatch q matches r =
    by_name fnmatch q.filter_pattern r
    && matches r.name
    && at_least q.min_size r
    && at_most q.max_size r
    && by_type q.has_type r

-- The order of the keys, where `a` may stand before `b`.
unfoldable pub in_order : Text → Row → Row → Bool
in_order sort_by a b =
    if sort_by == lit "name"
    then not (text_ltb (lower b.name) (lower a.name))
    else if sort_by == lit "size"
    then leb a.size b.size
    else leb a.addr b.addr

unfoldable pub before : Query → Row → Row → Bool
unfolding in_order
before q a b = if q.descending then in_order q.sort_by b a else in_order q.sort_by a b

pub data Answer : Type 0 where
  bad_regex : Answer
  page : List Row → ℕ → Option ℤ → Answer  -- the rows, how many there are in all, the next offset

-- rx.search, for the pattern of the query; none: re.error
unfoldable pub matcher : (Text → Option (Text → Bool)) → Text → Option (Text → Bool)
matcher compile_client_regex regex =
    if is_empty regex then some (λ name. true) else compile_client_regex regex

unfoldable pub answered : (Text → Text → Bool) → Query → List Row → Option (Text → Bool) → Answer
unfolding passes before sort
answered fnmatch q rows none = bad_regex
answered fnmatch q rows (some matches) =
    let sorted = sort (before q) (keep (passes fnmatch q matches) rows) in
    let (shown, next) = paginate sorted q.offset q.count in page shown (length sorted) next

unfoldable pub func_query :
    (Text → Text → Bool) → (Text → Option (Text → Bool)) → List Row → Query → Answer
unfolding answered matcher
func_query fnmatch compile_client_regex rows q =
    answered fnmatch q rows (matcher compile_client_regex q.name_regex)
