-- ===== src/Compat/Versions.antt =====
-- The version that is read, and what the two comparisons say of it.
use ida_mcp.Prelude.{
  ℕ, ◌+◌, ◌-◌, ◌*◌, ◌≡◌, ◌≢◌, refl, true, false, not, Option, none, some, List, [], ◌∷◌, ◌++◌, ltb,
  leb, ◌==◌, nat_eq, arith, ◌&&◌, ◌||◌,
}
use ida_mcp.Text.{Text}
use ida_mcp.Compat.{is_decimal, runs, parse_kernel_version, Version, detected, is_ida_ge, is_ida_lt}

abbrev pub AllDecimal : Text → Type 0
AllDecimal [] = Unit
AllDecimal (c ∷ t) = (is_decimal c ≡ true) × AllDecimal t

-- The number of the digits that follow n.
abbrev pub number_of : ℕ → Text → ℕ
number_of n [] = n
number_of n (c ∷ t) = number_of (n * 10 + (c - b'0')) t

runs-digits :
    (n : ℕ) (ds rest : Text)
    → AllDecimal ds
    → runs (some n) (ds ++ rest) ≡ runs (some (number_of n ds)) rest
unfolding runs
runs-digits n [] rest h = refl
runs-digits n (c ∷ ds) rest h = rw (h.0, runs) (runs-digits (n * 10 + (c - b'0')) ds rest h.1)

runs-all : (n : ℕ) (ds : Text) → AllDecimal ds → runs (some n) ds ≡ number_of n ds ∷ []
unfolding runs
runs-all n [] h = refl
runs-all n (c ∷ ds) h = rw (h.0, runs) (runs-all (n * 10 + (c - b'0')) ds h.1)

runs-first :
    (c : ℕ) (rest : Text) → is_decimal c ≡ true → runs none (c ∷ rest) ≡ runs (some (c - b'0')) rest
unfolding runs
runs-first c rest h = rw (h, runs) refl

-- A version of two numbers with a dot between them is read as these, with patch level 0.
pub parse_kernel_version-dotted :
    (c d : ℕ) (major minor : Text)
    → AllDecimal (c ∷ major)
    → AllDecimal (d ∷ minor)
    → parse_kernel_version ((c ∷ major) ++ b'.' ∷ d ∷ minor)
      ≡ (number_of (c - b'0') major, number_of (d - b'0') minor, 0)
unfolding parse_kernel_version
parse_kernel_version-dotted c d major minor h k = simp (
  runs-first c (major ++ b'.' ∷ d ∷ minor) h.0,
  runs-digits (c - b'0') major (b'.' ∷ d ∷ minor) h.1,
  runs-first d minor k.0,
  runs-all (d - b'0') minor k.1,
)

below-not_above :
    (x y a b : ℕ) → (ltb x a || (x == a && ltb y b)) ≡ not (ltb a x || (x == a && leb b y))
below-not_above x y a b = ground arith

detected-known : (getters : List (Option Text)) (s : Version) → s.major ≢ 0 → detected getters s ≡ s
detected-known getters s h = let known : s.major == 0 ≡ false = ground arith in simp known

-- Exactly one of the two comparisons with a version holds, they leave the same version behind, and a
-- version that was found with a major number other than 0 is not asked for again.
pub lt-ge :
    (getters : List (Option Text)) (major minor : ℕ) (s : Version)
    → ((is_ida_lt getters major minor s).0 ≡ not (is_ida_ge getters major minor s).0)
      × ((is_ida_lt getters major minor s).1 ≡ (is_ida_ge getters major minor s).1)
      × (s.major ≢ 0 → (is_ida_ge getters major minor s).1 ≡ s)
unfolding is_ida_ge is_ida_lt
lt-ge getters major minor s =
    let v = detected getters s in
    (below-not_above v.major v.minor major minor, refl, detected-known getters s)
