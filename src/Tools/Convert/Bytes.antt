-- ===== src/Tools/Convert/Bytes.antt =====
-- The bytes of a number, read back.
use ida_mcp.Prelude.{
  ℕ, zero, suc, ◌+◌, ◌-◌, ◌*◌, ◌/◌, ◌<◌, ◌≡◌, refl, ap, sym, ◌∙◌, inl, inr, false, Option, none,
  some, List, [], ◌∷◌, arith, max, ltb, leb, length, if◌then◌else◌, nat_eq, Bool-cases,
  Option-cases,
}
use ida_mcp.Prelude.Int.{ℤ, pos, negsuc}
use ida_mcp.Text.{Text}
use ida_mcp.Number.{parse_int}
use ida_mcp.Tools.Convert.{
  pow256, little, to_bytes, Converted, formats, size_of, rendered, int_convert,
}

-- The number that bytes stand for, least significant first.
abbrev pub unsigned : List ℕ → ℕ
unsigned [] = 0
unsigned (b ∷ bs) = b + 256 * unsigned bs

-- int.from_bytes(bs, "little", signed=True)
abbrev pub from_bytes : List ℕ → ℤ
from_bytes bs =
    if ltb (2 * unsigned bs) (pow256 (length bs))
    then pos (unsigned bs)
    else negsuc (pow256 (length bs) - unsigned bs - 1)

length-little : (k n : ℕ) → length (little k n) ≡ k
unfolding little
length-little zero n = refl
length-little (suc k) n = ap suc (length-little k (n / 256))

unsigned-little : (k n : ℕ) → n < pow256 k → unsigned (little k n) ≡ n
unfolding little
unsigned-little zero n h = omega arith
unsigned-little (suc k) n h = omega (arith, unsigned-little k (n / 256) (omega arith))

pow256-pos : (k : ℕ) → 0 < pow256 k
pow256-pos zero = omega arith
pow256-pos (suc k) = omega (arith, pow256-pos k)

from_bytes-to_bytes : (k : ℕ) (v : ℤ) (bs : List ℕ) → to_bytes k v ≡ some bs → from_bytes bs ≡ v
unfolding to_bytes
from_bytes-to_bytes k (pos n) bs e = elim (Bool-cases (ltb (2 * n) (pow256 k))) [
  | inr f ↦ absurd (ground (arith, e))
  | inl f ↦
      let is : little k n ≡ bs = ground (arith, e) in
      let value = unsigned-little k n (ground arith) in
      rw (sym is, length-little k n, value, f) refl
]
from_bytes-to_bytes k (negsuc n) bs e = elim (Bool-cases (leb (2 * suc n) (pow256 k))) [
  | inr f ↦ absurd (ground (arith, e))
  | inl f ↦
      let is : little k (pow256 k - suc n) ≡ bs = ground (arith, e) in
      let value = unsigned-little k (pow256 k - suc n) (ground (arith, pow256-pos k)) in
      let high : ltb (2 * (pow256 k - suc n)) (pow256 k) ≡ false = ground arith in
      let back : pow256 k - (pow256 k - suc n) - 1 ≡ n = ground arith in
      rw (sym is, length-little k (pow256 k - suc n), value, high, back) refl
]

length-to_bytes : (k : ℕ) (v : ℤ) (bs : List ℕ) → to_bytes k v ≡ some bs → length bs ≡ k
unfolding to_bytes
length-to_bytes k (pos n) bs e = elim (Bool-cases (ltb (2 * n) (pow256 k))) [
  | inr f ↦ absurd (ground (arith, e))
  | inl f ↦ let is : little k n ≡ bs = ground (arith, e) in ap length (sym is) ∙ length-little k n
]
length-to_bytes k (negsuc n) bs e = elim (Bool-cases (leb (2 * suc n) (pow256 k))) [
  | inr f ↦ absurd (ground (arith, e))
  | inl f ↦
      let is : little k (pow256 k - suc n) ≡ bs = ground (arith, e) in
      ap length (sym is) ∙ length-little k (pow256 k - suc n)
]

the_value : Converted → ℤ → ℤ
the_value (formats v bs a) w = v
the_value _ w = w

the_bytes : Converted → List ℕ
the_bytes (formats v bs a) = bs
the_bytes _ = []

rendered-formats :
    (v w : ℤ) (size : ℕ) (o : Option (List ℕ)) (bs : List ℕ) (a : Option Text)
    → rendered v size o ≡ formats w bs a
    → (o ≡ some bs) × (v ≡ w)
unfolding rendered the_value the_bytes
rendered-formats v w size none bs a e = absurd (cc e)
rendered-formats v w size (some cs) bs a e =
    (ap (λ c. some (the_bytes c)) e, ap (λ c. the_value c v) e)

-- The bytes that are reported are as many as asked for, or as the number's width asks for, and read
-- as signed little-endian they give back the number that the text was parsed to.
pub int_convert-from_bytes :
    (t : Text) (size v : ℤ) (bs : List ℕ) (a : Option Text)
    → int_convert t size ≡ formats v bs a
    → (parse_int t ≡ some v) × (from_bytes bs ≡ v) × (length bs ≡ max 1 (size_of v size))
unfolding int_convert
int_convert-from_bytes t size v bs a e = elim (Option-cases (parse_int t)) [
  | inl f ↦ absurd (cc (f, e))
  | inr (w, f) ↦
      let k = max 1 (size_of w size) in
      let (some_bytes, same) =
        rendered-formats w v (size_of w size) (to_bytes k w) bs a (rw (f, int_convert) at e) in
      (
        f ∙ ap some same,
        from_bytes-to_bytes k w bs some_bytes ∙ same,
        length-to_bytes k w bs some_bytes ∙ ap (λ u. max 1 (size_of u size)) same,
      )
]
