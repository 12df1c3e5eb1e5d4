-- ===== src/Tools/Patch.antt =====
-- Patching bytes (api_modify.py: patch_bytes, revert_patch, list_patches). The database of IDA is a
-- parameter: what reads and writes a byte of it, and the byte that the file had. The items that patch_bytes
-- undefines over the bytes, and addresses that cannot be read, are left out.
pub mod Reverted
pub mod Listed
use ida_mcp.Prelude.{
  ℕ, zero, suc, ◌+◌, ◌-◌, ◌*◌, ◌≡◌, Bool, true, false, not, ◌&&◌, Option, none, some, List, [], ◌∷◌,
  ◌++◌, min, ltb, leb, length, if◌then◌else◌, ◌==◌, nat_eq,
}
use ida_mcp.Prelude.Int.{ℤ, pos, negsuc}
use ida_mcp.Text.{Text}
use ida_mcp.Number.{digit}
use ida_mcp.Mcp.Body.{Bytes, is_byte_space}
use ida_mcp.Tools.Limits.{Address, parse_addr}

pub record Database (D : Type 0) : Type 0 where
  pub is_mapped : ℕ → Bool
  pub get_original_byte : ℕ → ℕ
  pub get_byte : D → ℕ → ℕ
  pub patch_byte : ℕ → ℕ → D → D

-- data.replace(" ", "")
unfoldable pub without_spaces : Text → Text
without_spaces [] = []
without_spaces (c ∷ t) = let rest = without_spaces t in if c == b' ' then rest else c ∷ rest

unfoldable pub hex_digit : ℕ → Option ℕ
hex_digit c = elim (digit c) [ none ↦ none | some d ↦ if ltb d 16 then some d else none ]

unfoldable pub with_byte : Option ℕ → Option ℕ → Option Bytes → Option Bytes
with_byte (some h) (some l) (some bs) = some ((h * 16 + l) ∷ bs)
with_byte _ _ _ = none

-- bytes.fromhex: pairs of digits, with white space between them; none: ValueError
unfoldable pub fromhex : Text → Option Bytes
unfolding hex_digit with_byte
fromhex [] = some []
fromhex (c ∷ []) = if is_byte_space c then some [] else none
fromhex (c ∷ d ∷ t) =
    let next = fromhex (d ∷ t) in
    let pair = with_byte (hex_digit c) (hex_digit d) (fromhex t) in
    if is_byte_space c then next else pair

abbrev pub max_patches : ℕ
max_patches = 1000

-- Of each segment the first 100000 addresses are looked at.
abbrev pub span : ℕ → ℕ → ℕ
span start end_ = min end_ (start + 100000) - start

pub data Answer : Type 0 where
  bad_address bad_hex : Answer
  not_mapped : ℕ → Answer
  patched : ℕ → ℕ → Text → Answer  -- the address, the size and the digits
  restored : ℕ → ℕ → Answer

module _ {D : Type 0} (db : Database D) where
  -- The loop over the bytes.
  unfoldable pub write : ℕ → Bytes → D → D
  write ea [] d = d
  write ea (b ∷ bs) d = write (suc ea) bs (db.patch_byte ea b d)

  unfoldable pub patch_at : Option ℤ → Text → Option Bytes → D → Answer × D
  unfolding write
  patch_at none digits raw d = (bad_address, d)
  patch_at (some (negsuc n)) digits raw d = (bad_address, d)
  patch_at (some (pos ea)) digits none d = (bad_hex, d)
  patch_at (some (pos ea)) digits (some raw) d = (patched ea (length raw) digits, write ea raw d)

  -- An address below zero is no address of IDA's.
  unfoldable pub patch_bytes : (Text → Option ℕ) → Address → Text → D → Answer × D
  unfolding patch_at
  patch_bytes name_ea address data_ d =
      let digits = without_spaces data_ in
      patch_at (parse_addr name_ea address) digits (fromhex digits) d

  unfoldable pub revert_at : ℕ → D → Answer × D
  revert_at ea d =
      if db.is_mapped ea
      then (restored ea (db.get_original_byte ea), db.patch_byte ea (db.get_original_byte ea) d)
      else (not_mapped ea, d)

  unfoldable pub revert_patch : (Text → Option ℕ) → Address → D → Answer × D
  unfolding revert_at
  revert_patch name_ea address d = elim (parse_addr name_ea address) [
    | none ↦ (bad_address, d)
    | some i ↦ elim i [ pos ea ↦ revert_at ea d | negsuc n ↦ (bad_address, d) ]
  ]

  unfoldable pub differs : D → ℕ → Bool
  differs d ea = not (db.get_original_byte ea == db.get_byte d ea)

  -- The inner loop, over so many addresses from one on; it is left at the 1000th patch.
  unfoldable pub scan : D → ℕ → ℕ → List ℕ → List ℕ
  unfolding differs
  scan d zero ea found = found
  scan d (suc n) ea found =
      let more = scan d n (suc ea) found in
      let found' = found ++ ea ∷ [] in
      let more' = scan d n (suc ea) found' in
      if differs d ea then (if leb max_patches (length found') then found' else more') else more

  unfoldable pub scan_all : D → List (ℕ × ℕ) → List ℕ → List ℕ
  unfolding scan
  scan_all d [] found = found
  scan_all d ((start, end_) ∷ segments) found =
      let found' = scan d (span start end_) start found in
      let more = scan_all d segments found' in
      if leb max_patches (length found') then found' else more

  -- list_patches: the addresses. The original byte and the current one come with each.
  unfoldable pub list_patches : D → List (ℕ × ℕ) → List ℕ
  unfolding scan_all
  list_patches d segments = scan_all d segments []
