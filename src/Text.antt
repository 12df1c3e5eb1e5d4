-- ===== src/Text.antt =====
-- Python's str: a text is the list of its code points. The methods that the program calls.
use Prim.Native.Char.{code}
use ida_mcp.Prelude.{
  ℕ, suc, ◌+◌, String, Bool, true, false, ◌&&◌, ◌||◌, Option, none, some, List, [], ◌∷◌, ◌++◌, map,
  leb, if◌then◌else◌, ◌==◌, nat_eq,
}
use mathlib.Core.List.{reverse}

abbrev pub Text : Type 0
Text = List ℕ

-- A literal of the source.
unfoldable pub lit : String → Text
lit String.[] = []
lit (String.◌∷◌ c s) = code c ∷ lit s

-- str.isspace, on one character.
unfoldable pub is_space : ℕ → Bool
is_space c =
    (leb 9 c && leb c 13)
    || (leb 28 c && leb c 32)
    || c == 0x85
    || c == 0xa0
    || c == 0x1680
    || (leb 0x2000 c && leb c 0x200a)
    || c == 0x2028
    || c == 0x2029
    || c == 0x202f
    || c == 0x205f
    || c == 0x3000

unfoldable pub lstrip : Text → Text
lstrip [] = []
lstrip (c ∷ t) = let rest = lstrip t in if is_space c then rest else c ∷ t

unfoldable pub strip : Text → Text
unfolding lstrip is_space
strip t = reverse (lstrip (reverse (lstrip t)))

-- str.lower, on the ASCII letters.
unfoldable pub to_lower : ℕ → ℕ
to_lower c = if leb b'A' c && leb c b'Z' then c + 32 else c

unfoldable pub lower : Text → Text
unfolding to_lower
lower = map to_lower

unfoldable pub starts_with : Text → Text → Bool
starts_with [] t = true
starts_with (p ∷ ps) [] = false
starts_with (p ∷ ps) (c ∷ t) = p == c && starts_with ps t

-- t.find(c), for one character
unfoldable pub find : ℕ → Text → Option ℕ
find c [] = none
find c (d ∷ t) = elim (d == c) [
  | true ↦ some 0
  | false ↦ elim (find c t) [ none ↦ none | some i ↦ some (suc i) ]
]

-- t.count(c), for one character
unfoldable pub count : ℕ → Text → ℕ
count c [] = 0
count c (d ∷ t) = let n = count c t in if d == c then suc n else n

prepend : ℕ → List Text → List Text
prepend c [] = (c ∷ []) ∷ []
prepend c (w ∷ ws) = (c ∷ w) ∷ ws

-- t.split(c), for one character
unfoldable pub split : ℕ → Text → List Text
unfolding prepend
split c [] = [] ∷ []
split c (d ∷ t) = let ws = split c t in if d == c then [] ∷ ws else prepend d ws

-- sep.join(ts)
unfoldable pub join : Text → List Text → Text
join sep [] = []
join sep (t ∷ []) = t
join sep (t ∷ u ∷ ts) = t ++ sep ++ join sep (u ∷ ts)

abbrev pub is_empty : Text → Bool
is_empty [] = true
is_empty (c ∷ t) = false
