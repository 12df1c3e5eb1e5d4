-- ===== src/Tools/Limits.antt =====
-- How tools read numbers and addresses and cap what they return (api_analysis.py: parse_addr, _cap_lines,
-- _limit_items, _as_int; api_query.py: _paginate; server.py: _format_result; api_sigmaker.py: _split_addrs).
pub mod Pages
use ida_mcp.Prelude.{
  ℕ, zero, suc, ◌+◌, ◌-◌, Bool, true, false, not, Option, none, some, List, [], ◌∷◌, ◌++◌, leb, ltb,
  length, take, drop, min, if◌then◌else◌, ◌==◌, nat_eq,
}
use ida_mcp.Prelude.Int.{ℤ, pos, negsuc, ◌+ℤ◌, ltb_ℤ}
use ida_mcp.Text.{Text, lit, strip, split, join, is_empty}
use ida_mcp.Json.{Value, null, bool, int, float, str, arr, obj, Float}
use ida_mcp.Number.{parse_int}
use ida_mcp.Mcp.Annotation.{float_integer}

abbrev newline : ℕ
newline = 10

pub data Address : Type 0 where
  number : ℤ → Address
  spelled : Text → Address

-- parse_addr; none: ValueError. `name_ea` is get_name_ea, none for BADADDR.
unfoldable pub parse_addr : (Text → Option ℕ) → Address → Option ℤ
parse_addr name_ea (number i) = some i
parse_addr name_ea (spelled s) = elim (parse_int (strip s)) [
  | some i ↦ some i
  | none ↦ elim (name_ea (strip s)) [ none ↦ none | some ea ↦ some (pos ea) ]
]

-- _cap_lines, of a text
unfoldable pub cap_lines : Text → ℕ → Text × Option ℕ
cap_lines t max_lines =
    let lines = split newline t in
    if leb (length lines) max_lines
    then (t, none)
    else (join (newline ∷ []) (take max_lines lines), some (length lines))

unfoldable pub limit_items {ℓ} : {A : Type ℓ} → List A → ℕ → List A × Bool
limit_items xs n = if leb (length xs) n then (xs, false) else (take n xs, true)

-- Where an index of a slice points in n elements: one below zero counts from the end.
abbrev pub index : ℕ → ℤ → ℕ
index n (pos k) = min k n
index n (negsuc k) = n - suc k

-- rows[a:b]
abbrev pub slice {ℓ} : {A : Type ℓ} → List A → ℤ → ℤ → List A
slice rows a b =
    let first = index (length rows) a in take (index (length rows) b - first) (drop first rows)

-- A count that is not positive asks for all.
abbrev pub page_size : ℕ → ℤ → ℕ
page_size n (negsuc k) = n
page_size n (pos k) = if k == 0 then n else k

-- _paginate: rows[offset:offset + count], with the offset of the next page
unfoldable pub paginate {ℓ} : {A : Type ℓ} → List A → ℤ → ℤ → List A × Option ℤ
unfolding ◌+ℤ◌
paginate rows offset count =
    let stop = offset +ℤ pos (page_size (length rows) count) in
    (slice rows offset stop, if ltb_ℤ stop (pos (length rows)) then some stop else none)

-- _as_int, of what JSON gives; `to_str` is str() and `parse_float` is float(), which raises on other text.
unfoldable pub as_int : (Value → Text) → (Text → Option Float) → Value → ℤ → ℤ
as_int to_str parse_float (bool b) default = default
as_int to_str parse_float (int i) default = i
as_int to_str parse_float v default = elim (parse_int (strip (to_str v))) [
  | some i ↦ i
  | none ↦ elim (parse_float (strip (to_str v))) [
    | none ↦ default
    | some num ↦ elim (float_integer num) [ none ↦ default | some i ↦ i ]
  ]
]

-- _format_result: the parts of a script's result that are there and not empty
unfoldable pub format_result : Text → Text → Text → Text
format_result result stdout stderr =
    let errors = if is_empty stderr then [] else (lit "[stderr]\n" ++ stderr) ∷ [] in
    let outputs = if is_empty stdout then errors else stdout ∷ errors in
    let parts = if is_empty result then outputs else result ∷ outputs in
    if leb (length parts) 0 then lit "(no output)" else join (newline ∷ []) parts

-- _split_addrs, of a string
unfoldable pub split_addrs : Text → List Text
split_addrs t = not_blank (split b',' t)
  where
    not_blank : List Text → List Text
    not_blank [] = []
    not_blank (a ∷ rest) =
        let more = not_blank rest in if is_empty (strip a) then more else strip a ∷ more
