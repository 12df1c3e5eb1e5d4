-- ===== src/Profiles.antt =====
-- The tool profiles (ida_mcp/profiles.py). The directory's files are given by name, sorted, each with its
-- text or none where it cannot be read.
pub mod Cached
use ida_mcp.Prelude.{
  ℕ, ◌-◌, Bool, true, false, not, ◌&&◌, ◌||◌, Option, none, some, List, [], ◌∷◌, length, take, drop,
  leb, if◌then◌else◌, ◌==◌, nat_eq, text_eq,
}
use ida_mcp.Prelude.Dict.{Dict, insert, lookup}
use ida_mcp.Text.{Text, lit, is_space, strip, lower, split, starts_with, is_empty}

abbrev pub Files : Type 0
Files = List (Text × Option Text)

-- line.split()[0], of a line that is stripped and not empty
unfoldable pub first_word : Text → Text
first_word [] = []
first_word (c ∷ t) = let rest = first_word t in if is_space c then [] else c ∷ rest

unfoldable pub tool_names : List Text → List Text
unfolding first_word
tool_names [] = []
tool_names (l ∷ ls) =
    let line = strip l in
    let rest = tool_names ls in
    if is_empty line || starts_with (lit "#") line then rest else first_word line ∷ rest

-- The name without ".txt"; none for another file.
unfoldable pub profile_name : Text → Option Text
profile_name fname =
    let n = length fname - 4 in
    if leb 4 (length fname) && drop n fname == lit ".txt" then some (take n fname) else none

unfoldable pub load_from : Files → Dict Text (List Text) → Dict Text (List Text)
unfolding tool_names profile_name
load_from [] found = found
load_from ((fname, none) ∷ fs) found = load_from fs found
load_from ((fname, some t) ∷ fs) found =
    load_from fs (elim (profile_name fname) [
      | none ↦ found
      | some p ↦ insert p (tool_names (split 10 t)) found
    ])

-- _cache and _cache_complete
pub record Cache : Type 0 where
  pub table : Dict Text (List Text)
  pub is_complete : Bool

unfoldable pub reload_profiles : Files → Cache → Dict Text (List Text) × Cache
unfolding load_from
reload_profiles fs c =
    let found = load_from fs [] in (found, record { table = found; is_complete = true })

unfoldable pub list_profiles : Files → Cache → Dict Text (List Text) × Cache
list_profiles fs c = if c.is_complete then (c.table, c) else reload_profiles fs c

unfoldable pub known_tools : Option (List Text) → Option (List Text)
known_tools none = none
known_tools (some []) = none
known_tools (some (t ∷ ts)) = some (t ∷ ts)

unfoldable pub get_profile : Files → Text → Cache → Option (List Text) × Cache
unfolding known_tools
get_profile fs name c =
    let (table, c') = list_profiles fs c in (known_tools (lookup (lower (strip name)) table), c')
