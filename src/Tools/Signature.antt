-- ===== src/Tools/Signature.antt =====
-- Byte signatures (api_sigmaker.py: _insn_sig_bytes, _to_ida_pattern, _render, _find_nth, _is_unique,
-- _make_unique, _check_format). IDA's decoder and its search are parameters; an address is a number,
-- and none stands for BADADDR.
pub mod Unique
pub mod Bytes
use ida_mcp.Prelude.{
  ℕ, zero, suc, ◌+◌, ◌-◌, ◌/◌, ◌%◌, max, Bool, true, false, not, ◌&&◌, ◌||◌, Option, none, some,
  List, [], ◌∷◌, ◌++◌, map, leb, ltb, length, take, if◌then◌else◌, ◌==◌, contains, nat_eq, text_eq,
}
use ida_mcp.Text.{Text, lit, strip, lower, is_empty}

-- A signature's byte; none: any byte.
abbrev pub Signature : Type 0
Signature = List (Option ℕ)

-- An operand: whether its type is one whose value is wildcarded (not o_void), its offset, its size.
pub record Operand : Type 0 where
  pub wild : Bool
  pub offset : ℕ
  pub size : ℕ

-- What decode_insn and the read of the bytes give; none at an address that is no code.
pub record Insn : Type 0 where
  pub size : ℕ
  pub raw : List ℕ
  pub operands : List Operand

-- sig[i] = None for i in range(off, off + size)
unfoldable pub wildcard : ℕ → ℕ → Signature → Signature
wildcard off size [] = []
wildcard zero zero (b ∷ bs) = b ∷ bs
wildcard zero (suc size) (b ∷ bs) = none ∷ wildcard zero size bs
wildcard (suc off) size (b ∷ bs) = b ∷ wildcard off size bs

unfoldable pub applies : ℕ → Operand → Bool
applies size op =
    op.wild
    && ltb 0 op.size
    && ltb 0 op.offset
    && ltb op.offset size
    && leb (op.offset + op.size) size

unfoldable pub mask_operands : ℕ → List Operand → Signature → Signature
unfolding applies wildcard
mask_operands size [] sig = sig
mask_operands size (op ∷ ops) sig =
    mask_operands size ops (if applies size op then wildcard op.offset op.size sig else sig)

pub of_decoded : Bool → Option Insn → Option Signature
unfolding mask_operands
of_decoded wildcard_operands none = none
of_decoded wildcard_operands (some insn) =
    let sig = map some (take insn.size insn.raw) in
    if leb insn.size 0 || ltb (length insn.raw) insn.size
    then none
    else if wildcard_operands
    then some (mask_operands insn.size insn.operands sig)
    else some sig

unfoldable pub insn_sig_bytes : (ℕ → Option Insn) → Bool → ℕ → Option Signature
unfolding of_decoded
insn_sig_bytes decode wildcard_operands ea = of_decoded wildcard_operands (decode ea)

unfoldable pub hex_digit : ℕ → ℕ
hex_digit n = if ltb n 10 then b'0' + n else b'A' + (n - 10)

unfoldable pub byte_text : Option ℕ → Text
unfolding hex_digit
byte_text none = lit "??"
byte_text (some b) = hex_digit (b / 16) ∷ hex_digit (b % 16) ∷ []

-- " ".join(...)
unfoldable pub to_ida_pattern : Signature → Text
unfolding byte_text
to_ida_pattern [] = []
to_ida_pattern (b ∷ []) = byte_text b
to_ida_pattern (b ∷ c ∷ bs) = byte_text b ++ lit " " ++ to_ida_pattern (c ∷ bs)

abbrev pub or_zero : Option ℕ → ℕ
or_zero none = 0
or_zero (some b) = b

abbrev pub is_kept : Option ℕ → Bool
is_kept none = false
is_kept (some b) = true

-- _render with mask or bitmask: the bytes and which of them count
unfoldable pub render_mask : Signature → List ℕ × List Bool
render_mask sig = (map or_zero sig, map is_kept sig)

unfoldable pub check_format : Text → Option Text
check_format fmt =
    let f = lower (strip (if is_empty fmt then lit "ida" else fmt)) in
    if contains (lit "ida" ∷ lit "x64dbg" ∷ lit "mask" ∷ lit "bitmask" ∷ []) f then some f else none

abbrev is_none : Option ℕ → Bool
is_none none = true
is_none (some a) = false

-- find_bytes(pattern, ea, range_end=max_ea), for a given end; none: BADADDR, also where it raises, since
-- _find_nth returns BADADDR then, from whichever round of its loop
abbrev pub Search : Type 0
Search = Text → ℕ → Option ℕ

module _ (find : Search) (min_ea : ℕ) where
  -- The loop of _find_nth, from an address at or after min_ea.
  unfoldable pub find_from : Text → ℕ → ℕ → Option ℕ
  find_from pattern ea zero = some ea
  find_from pattern ea (suc zero) = find pattern ea
  find_from pattern ea (suc (suc n)) = elim (find pattern ea) [
    | none ↦ none
    | some found ↦ find_from pattern (suc found) (suc n)
  ]

  unfoldable pub find_nth : Text → ℕ → ℕ → Option ℕ
  unfolding find_from
  find_nth pattern start_ea n = find_from pattern (max start_ea min_ea) n

  pub only_at : Text → ℕ → Option ℕ → Bool
  only_at pattern expect_ea none = false
  only_at pattern expect_ea (some found) =
      found == expect_ea && is_none (find_nth pattern (suc found) 1)

  unfoldable pub is_unique : Text → ℕ → Bool
  unfolding only_at
  is_unique pattern expect_ea = only_at pattern expect_ea (find_nth pattern min_ea 1)

-- (sig, unique, end_ea, why): `made` for a unique one
pub data Made : Type 0 where
  made : Signature → ℕ → Made
  too_long : Signature → ℕ → Made  -- "No unique signature within ... bytes"
  partial : Signature → ℕ → Made  -- "Cancelled: signature is partial, uniqueness unverified"
  stopped : Made  -- "Cancelled (no signature built yet)"
  no_code : Made  -- "No decodable instruction at address"
  out_of_fuel : Made

module _ (insn : ℕ → Option Signature) (unique : Signature → Bool) (cancelled : ℕ → Bool)
    (max_length : ℕ) where
  -- What _make_unique returns after the loop.
  unfoldable pub conclude : Signature → ℕ → Made
  conclude [] ea = no_code
  conclude (b ∷ bs) ea = if unique (b ∷ bs) then made (b ∷ bs) ea else too_long (b ∷ bs) ea

  unfoldable pub interrupted : Signature → ℕ → Made
  interrupted [] ea = stopped
  interrupted (b ∷ bs) ea = partial (b ∷ bs) ea

  -- The loop, from the round `steps`; `cancelled` says whether check_cancelled raises in a round.
  unfoldable pub make_from : ℕ → ℕ → Signature → ℕ → Made
  make_from zero steps sig ea = out_of_fuel
  make_from (suc fuel) steps sig ea =
      if leb max_length (length sig)
      then conclude sig ea
      else if suc steps % 8 == 0 && cancelled (suc steps)
      then interrupted sig ea
      else elim (insn ea) [
        | none ↦ conclude sig ea
        | some part ↦
            let more = make_from fuel (suc steps) (sig ++ part) (ea + length part) in
            if unique (sig ++ part) then made (sig ++ part) (ea + length part) else more
      ]

-- _make_unique: a round adds a byte at least, so this fuel is enough.
unfoldable pub make_unique : (ℕ → Option Insn) → Search → ℕ → (ℕ → Bool) → ℕ → ℕ → Bool → Made
make_unique decode find min_ea cancelled start_ea max_length wildcard_operands =
    make_from (insn_sig_bytes decode wildcard_operands)
      (λ sig. is_unique find min_ea (to_ida_pattern sig) start_ea) cancelled max_length
      (suc max_length) 0 [] start_ea
