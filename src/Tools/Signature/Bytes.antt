-- ===== src/Tools/Signature/Bytes.antt =====
-- What an instruction's part of a signature keeps of its bytes.
use ida_mcp.Prelude.{
  ℕ, zero, suc, ◌≤◌, ◌<◌, ◌≡◌, refl, ap, inl, inr, Bool, true, false, ◌||◌, Option, none, some,
  List, [], ◌∷◌, map, leb, ltb, arith, length, take, length-take, if◌then◌else◌, Bool-cases,
}
use ida_mcp.Tools.Signature.{
  Signature, Operand, Insn, wildcard, applies, mask_operands, of_decoded, insn_sig_bytes,
}

-- The signature stands for the bytes: as long, and each byte of it is kept as it is or wild.
pub data Covers : Signature → List ℕ → Type 0 where
  done : Covers [] []
  keeps : {sig : Signature} {bs : List ℕ} {b : ℕ} → Covers sig bs → Covers (some b ∷ sig) (b ∷ bs)
  wild : {sig : Signature} {bs : List ℕ} {b : ℕ} → Covers sig bs → Covers (none ∷ sig) (b ∷ bs)

-- The first byte, the opcode's, is kept.
abbrev pub IsHeadKept : Signature → Type 0
IsHeadKept [] = ⊥
IsHeadKept (none ∷ sig) = ⊥
IsHeadKept (some b ∷ sig) = Unit

pub Covers-length : (sig : Signature) (bs : List ℕ) → Covers sig bs → length sig ≡ length bs
Covers-length [] [] done = refl
Covers-length [] (b ∷ bs) x = elim x [ ]
Covers-length (none ∷ sig) [] x = elim x [ ]
Covers-length (some c ∷ sig) [] x = elim x [ ]
Covers-length (some c ∷ sig) (b ∷ bs) (keeps h) = omega (arith, Covers-length sig bs h)
Covers-length (none ∷ sig) (b ∷ bs) (wild h) = omega (arith, Covers-length sig bs h)

all-kept : (bs : List ℕ) → Covers (map some bs) bs
all-kept [] = done
all-kept (b ∷ bs) = keeps (all-kept bs)

wildcard-Covers :
    (off size : ℕ) (sig : Signature) (bs : List ℕ)
    → Covers sig bs
    → Covers (wildcard off size sig) bs
unfolding wildcard
wildcard-Covers off size [] [] done = done
wildcard-Covers off size [] (b ∷ bs) h = elim h [ ]
wildcard-Covers zero zero (c ∷ sig) [] h = elim h [ ]
wildcard-Covers zero (suc size) (none ∷ sig) [] h = elim h [ ]
wildcard-Covers zero (suc size) (some c ∷ sig) [] h = elim h [ ]
wildcard-Covers (suc off) size (none ∷ sig) [] h = elim h [ ]
wildcard-Covers (suc off) size (some c ∷ sig) [] h = elim h [ ]
wildcard-Covers zero zero (c ∷ sig) (b ∷ bs) h = h
wildcard-Covers zero (suc size) (some c ∷ sig) (b ∷ bs) (keeps h) =
    wild (wildcard-Covers zero size sig bs h)
wildcard-Covers zero (suc size) (none ∷ sig) (b ∷ bs) (wild h) =
    wild (wildcard-Covers zero size sig bs h)
wildcard-Covers (suc off) size (some c ∷ sig) (b ∷ bs) (keeps h) =
    keeps (wildcard-Covers off size sig bs h)
wildcard-Covers (suc off) size (none ∷ sig) (b ∷ bs) (wild h) =
    wild (wildcard-Covers off size sig bs h)

wildcard-head :
    (off size : ℕ) (sig : Signature) → 0 < off → IsHeadKept sig → IsHeadKept (wildcard off size sig)
unfolding wildcard
wildcard-head zero size sig h k = absurd (omega (arith, h))
wildcard-head (suc off) size [] h k = elim k [ ]
wildcard-head (suc off) size (none ∷ sig) h k = elim k [ ]
wildcard-head (suc off) size (some b ∷ sig) h k = tt

applies-offset : (size : ℕ) (op : Operand) → applies size op ≡ true → 0 < op.offset
unfolding applies
applies-offset size op h = ground (arith, h)

mask-Covers :
    (size : ℕ) (ops : List Operand) (sig : Signature) (bs : List ℕ)
    → Covers sig bs
    → IsHeadKept sig
    → Covers (mask_operands size ops sig) bs × IsHeadKept (mask_operands size ops sig)
unfolding mask_operands
mask-Covers size [] sig bs h k = (h, k)
mask-Covers size (op ∷ ops) sig bs h k = elim (Bool-cases (applies size op)) [
  | inr e ↦ simp e (mask-Covers size ops sig bs h k)
  | inl e ↦ simp e (
      mask-Covers size ops (wildcard op.offset op.size sig) bs
        (wildcard-Covers op.offset op.size sig bs h)
        (wildcard-head op.offset op.size sig (applies-offset size op e) k))
]

head-kept : (n : ℕ) (bs : List ℕ) → 0 < n → n ≤ length bs → IsHeadKept (map some (take n bs))
head-kept zero bs h k = absurd (omega (arith, h))
head-kept (suc n) [] h k = absurd (omega (arith, k))
head-kept (suc n) (b ∷ bs) h k = tt

-- The part of a signature that an instruction gives is as long as the instruction, keeps its first
-- byte, and has at every other place the instruction's byte or a wildcard.
pub insn_sig-Covers :
    (decode : ℕ → Option Insn) (wildcard_operands : Bool) (ea : ℕ) (insn : Insn) (sig : Signature)
    → decode ea ≡ some insn
    → insn_sig_bytes decode wildcard_operands ea ≡ some sig
    → (length sig ≡ insn.size)
      × (0 < insn.size)
      × Covers sig (take insn.size insn.raw)
      × IsHeadKept sig
unfolding insn_sig_bytes of_decoded
insn_sig-Covers decode w ea insn sig e h =
    elim (Bool-cases (leb insn.size 0 || ltb (length insn.raw) insn.size)) [
      | inl bad ↦ absurd (cc (simp (e, bad) at h))
      | inr good ↦ result w (simp (e, good) at h) (sizes insn.size (length insn.raw) good)
    ]
  where
    sizes : (n k : ℕ) → leb n 0 || ltb k n ≡ false → (0 < n) × (n ≤ k)
    sizes n k g = (ground (arith, g), ground (arith, g))

    concluded :
        (s : Signature)
        → (s ≡ sig)
        → (0 < insn.size) × (insn.size ≤ length insn.raw)
        → Covers s (take insn.size insn.raw) × IsHeadKept s
        → (length sig ≡ insn.size)
          × (0 < insn.size)
          × Covers sig (take insn.size insn.raw)
          × IsHeadKept sig
    concluded s q (some_bytes, all_read) (c, k) = (
      omega (
        arith,
        ap length q,
        Covers-length s (take insn.size insn.raw) c,
        length-take insn.size insn.raw,
        all_read,
      ),
      some_bytes,
      rw q at c,
      rw q at k,
    )

    result :
        (b : Bool)
        → (if b
            then some (mask_operands insn.size insn.operands (map some (take insn.size insn.raw)))
            else some (map some (take insn.size insn.raw)))
          ≡ some sig
        → (0 < insn.size) × (insn.size ≤ length insn.raw)
        → (length sig ≡ insn.size)
          × (0 < insn.size)
          × Covers sig (take insn.size insn.raw)
          × IsHeadKept sig
    result true q s = concluded _ (cc q) s (
        mask-Covers insn.size insn.operands _ _ (all-kept (take insn.size insn.raw))
          (head-kept insn.size insn.raw s.0 s.1))
    result false q s =
        concluded _ (cc q) s
          (all-kept (take insn.size insn.raw), head-kept insn.size insn.raw s.0 s.1)
