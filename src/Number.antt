-- ===== src/Number.antt =====
-- Python's int(text, 0): a sign, a base prefix, digits with single underscores between them.
-- Digits outside ASCII, and the limit on the length of a decimal, are left out.
use ida_mcp.Prelude.{
  ℕ, ◌+◌, ◌-◌, ◌*◌, ◌≡◌, refl, Bool, true, false, ◌&&◌, ◌||◌, Option, none, some, [], ◌∷◌, leb, ltb,
  if◌then◌else◌, ◌==◌, nat_eq, ℕ_discrete,
}
use ida_mcp.Prelude.Int.{ℤ, pos, sub_ℕ}
use ida_mcp.Text.{Text, lit, strip}

-- The value of a digit, in any base up to 36.
unfoldable pub digit : ℕ → Option ℕ
digit c =
    if leb b'0' c && leb c b'9'
    then some (c - b'0')
    else if leb b'a' c && leb c b'z'
    then some (c - b'a' + 10)
    else if leb b'A' c && leb c b'Z'
    then some (c - b'A' + 10)
    else none

-- `due`: a digit has to come next.
unfoldable pub digits : ℕ → Bool → ℕ → Text → Option ℕ
unfolding digit
digits base due acc [] = if due then none else some acc
digits base due acc (c ∷ t) =
    let skip = if due then none else digits base true acc t in
    let rest = λ (d : ℕ). digits base false (acc * base + d) t in
    if c == b'_' then skip else elim (digit c) [
      | none ↦ none
      | some d ↦ elim (ltb d base) [ true ↦ rest d | false ↦ none ]
    ]

-- One underscore may follow the prefix.
prefixed : ℕ → Text → Option ℕ
unfolding digits
prefixed base [] = none
prefixed base (c ∷ t) = if c == b'_' then digits base true 0 t else digits base true 0 (c ∷ t)

only_zero : Option ℕ → Option ℕ
only_zero none = none
only_zero (some n) = if n == 0 then some 0 else none

-- No prefix: a decimal, which begins with 0 only if it is 0.
decimal : Text → Option ℕ
unfolding digits only_zero
decimal [] = none
decimal (c ∷ t) =
    if c == b'0' then only_zero (digits 10 true 0 (c ∷ t)) else digits 10 true 0 (c ∷ t)

unsigned : Text → Option ℕ
unfolding prefixed decimal
unsigned (z ∷ p ∷ t) =
    if z == b'0' && (p == b'x' || p == b'X')
    then prefixed 16 t
    else if z == b'0' && (p == b'o' || p == b'O')
    then prefixed 8 t
    else if z == b'0' && (p == b'b' || p == b'B')
    then prefixed 2 t
    else decimal (z ∷ p ∷ t)
unsigned t = decimal t

signed : Text → Option ℤ
unfolding unsigned
signed [] = none
signed (c ∷ t) =
    if c == b'-'
    then elim (unsigned t) [ none ↦ none | some n ↦ some (sub_ℕ 0 n) ]
    else if c == b'+'
    then elim (unsigned t) [ none ↦ none | some n ↦ some (pos n) ]
    else elim (unsigned (c ∷ t)) [ none ↦ none | some n ↦ some (pos n) ]

-- none: ValueError
unfoldable pub parse_int : Text → Option ℤ
unfolding signed strip
parse_int t = signed (strip t)

-- int(text), in base 10; none: ValueError
unfoldable pub parse_decimal : Text → Option ℤ
unfolding digits strip
parse_decimal t = elim (strip t) [
  | [] ↦ none
  | c ∷ u ↦
      (if c == b'-'
        then elim (digits 10 true 0 u) [ none ↦ none | some n ↦ some (sub_ℕ 0 n) ]
        else if c == b'+'
        then elim (digits 10 true 0 u) [ none ↦ none | some n ↦ some (pos n) ]
        else elim (digits 10 true 0 (c ∷ u)) [ none ↦ none | some n ↦ some (pos n) ])
]

hex_runs : parse_int (lit " -0x1_F ") ≡ some (sub_ℕ 0 31)
unfolding parse_int lit nat_eq ℕ_discrete
hex_runs = refl

leading_zero : parse_int (lit "010") ≡ none
unfolding parse_int lit nat_eq ℕ_discrete
leading_zero = refl
