-- ===== src/Tools/Convert.antt =====
-- Numbers in several formats (api_analysis.py: int_convert). The decimal, hexadecimal and binary texts
-- are Python's of the value, and stand here as the value itself.
pub mod Bytes
use ida_mcp.Prelude.{
  ℕ, zero, suc, ◌+◌, ◌-◌, ◌*◌, ◌/◌, ◌%◌, ◌≡◌, refl, Bool, true, false, ◌&&◌, Option, none, some,
  List, [], ◌∷◌, max, ltb, leb, if◌then◌else◌, ◌==◌, nat_eq, ℕ_discrete,
}
use ida_mcp.Prelude.Int.{ℤ, pos, negsuc}
use ida_mcp.Text.{Text, lit, is_empty}
use ida_mcp.Number.{parse_int}

-- while n: size += 1; n >>= 1. Halving ends before n rounds.
unfoldable pub bits : ℕ → ℕ → ℕ
bits zero n = 0
bits (suc fuel) n = let more = bits fuel (n / 2) in if n == 0 then 0 else suc more

abbrev pub magnitude : ℤ → ℕ
magnitude (pos n) = n
magnitude (negsuc n) = suc n

-- The width that is used where the caller's is not positive.
unfoldable pub auto_size : ℤ → ℕ
unfolding bits
auto_size v = (bits (magnitude v) (magnitude v) + 7) / 8

abbrev pub pow256 : ℕ → ℕ
pow256 zero = 1
pow256 (suc k) = 256 * pow256 k

unfoldable pub little : ℕ → ℕ → List ℕ
little zero n = []
little (suc k) n = n % 256 ∷ little k (n / 256)

-- value.to_bytes(k, "little", signed=True); none: OverflowError
unfoldable pub to_bytes : ℕ → ℤ → Option (List ℕ)
unfolding little
to_bytes k (pos n) = if ltb (2 * n) (pow256 k) then some (little k n) else none
to_bytes k (negsuc n) =
    if leb (2 * suc n) (pow256 k) then some (little k (pow256 k - suc n)) else none

-- bytes.rstrip(b"\x00")
unfoldable pub rstrip_zero : List ℕ → List ℕ
rstrip_zero [] = []
rstrip_zero (b ∷ bs) = let rest = rstrip_zero bs in if b == 0 && is_empty rest then [] else b ∷ rest

unfoldable pub all_printable : List ℕ → Bool
all_printable [] = true
all_printable (b ∷ bs) = leb 32 b && leb b 126 && all_printable bs

unfoldable pub ascii : List ℕ → Option Text
unfolding rstrip_zero all_printable
ascii bs = if all_printable (rstrip_zero bs) then some (rstrip_zero bs) else none

pub data Converted : Type 0 where
  invalid : Converted
  too_big : ℕ → Converted
  formats : ℤ → List ℕ → Option Text → Converted  -- the value, its bytes and its characters

unfoldable pub size_of : ℤ → ℤ → ℕ
unfolding auto_size
size_of v (pos zero) = auto_size v
size_of v (pos (suc n)) = suc n
size_of v (negsuc n) = auto_size v

unfoldable pub rendered : ℤ → ℕ → Option (List ℕ) → Converted
unfolding ascii
rendered v size none = too_big size
rendered v size (some bs) = formats v bs (ascii bs)

unfoldable pub int_convert : Text → ℤ → Converted
unfolding size_of rendered to_bytes
int_convert t size = elim (parse_int t) [
  | none ↦ invalid
  | some v ↦ rendered v (size_of v size) (to_bytes (max 1 (size_of v size)) v)
]
