-- ===== src/Mcp/Body/Chunks/Wire.antt =====
-- Chunks as HTTP/1.1 has them on the wire: the size in hexadecimal digits, CRLF, the content, CRLF.
use mathlib.Core.List.{reverse, reverse-cons, reverse-append, reverse-reverse}
use ida_mcp.Prelude.{
  ℕ, suc, ◌+◌, ◌-◌, ◌*◌, ◌≤◌, ◌<◌, ◌≡◌, refl, ap, sym, ◌∙◌, true, false, some, List, [], ◌∷◌, ◌++◌,
  map, append_assoc, arith, length, All, ◌==◌, ◌&&◌, contains, Bool-cases, nat_eq, inl, inr, ltb,
  leb, if◌then◌else◌,
}
use ida_mcp.Number.{digit, digits}
use ida_mcp.Mcp.Body.{
  Bytes, strip_bytes, strip_front, is_byte_space, before_semicolon, is_hex, all_hex, hex_value,
  chunk_size, complete, read_chunked,
}
use ida_mcp.Mcp.Body.Chunks.{
  Chunk, IsSizeLine, IsFramed, encode, ending, contents, read_chunked-encode,
}

-- A hexadecimal digit, in lower case.
abbrev pub hex_char : ℕ → ℕ
hex_char d = if ltb d 10 then b'0' + d else b'a' + (d - 10)

abbrev pub IsDigit : ℕ → Type 0
IsDigit d = d < 16

-- The number of the digits that follow n.
abbrev pub hex_number : ℕ → List ℕ → ℕ
hex_number n [] = n
hex_number n (d ∷ ds) = hex_number (n * 16 + d) ds

-- A size line: at least one digit, and CR before the newline.
abbrev pub hex_line : List ℕ → Bytes
hex_line ds = map hex_char ds ++ 13 ∷ []

is_hex-char : (d : ℕ) → IsDigit d → is_hex (hex_char d) ≡ true
unfolding is_hex
is_hex-char d h = ground (arith, h)

digit-char : (d : ℕ) → IsDigit d → digit (hex_char d) ≡ some d
unfolding digit
digit-char d h = elim (Bool-cases (ltb d 10)) [
  | inl e ↦
      let same : 48 + d - 48 ≡ d = omega arith in
      let range : (leb 48 (48 + d) && leb (48 + d) 57) ≡ true = ground (arith, e) in
      rw (e, range, same, digit) refl
  | inr e ↦
      let same : 97 + (d - 10) - 97 + 10 ≡ d = ground (arith, e) in
      let no : (leb 48 (97 + (d - 10)) && leb (97 + (d - 10)) 57) ≡ false = ground arith in
      let range : (leb 97 (97 + (d - 10)) && leb (97 + (d - 10)) 122) ≡ true =
        ground (arith, h, e) in
      rw (e, no, range, same, digit) refl
]

not_semicolon : (d : ℕ) → IsDigit d → (hex_char d == b';') ≡ false
not_semicolon d h = ground (arith, h)

not_underscore : (d : ℕ) → IsDigit d → (hex_char d == b'_') ≡ false
not_underscore d h = ground (arith, h)

not_newline : (d : ℕ) → IsDigit d → (10 == hex_char d) ≡ false
not_newline d h = ground (arith, h)

not_space : (d : ℕ) → IsDigit d → is_byte_space (hex_char d) ≡ false
unfolding is_byte_space
not_space d h = ground (arith, h)

before_semicolon-digits :
    (ds : List ℕ) (t : Bytes)
    → All IsDigit ds
    → before_semicolon (map hex_char ds ++ t) ≡ map hex_char ds ++ before_semicolon t
unfolding before_semicolon
before_semicolon-digits [] t h = refl
before_semicolon-digits (d ∷ ds) t h =
    rw (not_semicolon d h.0) (ap (λ u. hex_char d ∷ u) (before_semicolon-digits ds t h.1))

-- Bytes without a space.
abbrev AllPlain : Bytes → Type 0
AllPlain = All (λ c. is_byte_space c ≡ false)

AllPlain-digits : (ds : List ℕ) → All IsDigit ds → AllPlain (map hex_char ds)
AllPlain-digits [] h = tt
AllPlain-digits (d ∷ ds) h = (not_space d h.0, AllPlain-digits ds h.1)

AllPlain-snoc :
    (xs : Bytes) (c : ℕ) → AllPlain xs → is_byte_space c ≡ false → AllPlain (xs ++ c ∷ [])
AllPlain-snoc [] c h e = (e, tt)
AllPlain-snoc (x ∷ xs) c h e = (h.0, AllPlain-snoc xs c h.1 e)

AllPlain-reverse : (xs : Bytes) → AllPlain xs → AllPlain (reverse xs)
AllPlain-reverse [] h = tt
AllPlain-reverse (x ∷ xs) h =
    rw (reverse-cons x xs) (AllPlain-snoc (reverse xs) x (AllPlain-reverse xs h.1) h.0)

strip_front-plain : (xs : Bytes) → AllPlain xs → strip_front xs ≡ xs
unfolding strip_front
strip_front-plain [] h = refl
strip_front-plain (x ∷ xs) h = rw h.0 refl

strip_front-digits : (d : ℕ) (t : Bytes) → IsDigit d → strip_front (hex_char d ∷ t) ≡ hex_char d ∷ t
unfolding strip_front
strip_front-digits d t h = rw (not_space d h) refl

strip_front-crlf : (t : Bytes) → strip_front (10 ∷ 13 ∷ t) ≡ strip_front t
unfolding strip_front is_byte_space
strip_front-crlf t = refl

-- The digits are all that is left of a line.
strip_bytes-line :
    (d : ℕ) (ds : List ℕ)
    → All IsDigit (d ∷ ds)
    → strip_bytes ((map hex_char (d ∷ ds) ++ 13 ∷ []) ++ 10 ∷ []) ≡ map hex_char (d ∷ ds)
unfolding strip_bytes
strip_bytes-line d ds h =
    let xs = map hex_char (d ∷ ds) in
    let plain = AllPlain-digits (d ∷ ds) h in
    ap (λ t. reverse (strip_front (reverse t)))
      (strip_front-digits d ((map hex_char ds ++ 13 ∷ []) ++ 10 ∷ []) h.0)
    ∙ ap (λ t. reverse (strip_front t))
        (reverse-append (xs ++ 13 ∷ []) (10 ∷ []) ∙ ap (λ t. 10 ∷ t) (reverse-append xs (13 ∷ [])))
    ∙ ap reverse
        (strip_front-crlf (reverse xs) ∙ strip_front-plain (reverse xs) (AllPlain-reverse xs plain))
    ∙ reverse-reverse xs

all_hex-digits : (ds : List ℕ) → All IsDigit ds → all_hex (map hex_char ds) ≡ true
unfolding all_hex
all_hex-digits [] h = refl
all_hex-digits (d ∷ ds) h = rw (is_hex-char d h.0) (all_hex-digits ds h.1)

digits-number :
    (ds : List ℕ) (n : ℕ)
    → All IsDigit ds
    → digits 16 false n (map hex_char ds) ≡ some (hex_number n ds)
unfolding digits
digits-number [] n h = refl
digits-number (d ∷ ds) n h =
    let small : ltb d 16 ≡ true = ground (arith, h.0) in
    rw (not_underscore d h.0, digit-char d h.0, small) (digits-number ds (n * 16 + d) h.1)

digits-first :
    (d : ℕ) (ds : List ℕ)
    → All IsDigit (d ∷ ds)
    → digits 16 true 0 (map hex_char (d ∷ ds)) ≡ some (hex_number 0 (d ∷ ds))
unfolding digits
digits-first d ds h =
    let small : ltb d 16 ≡ true = ground (arith, h.0) in
    rw (not_underscore d h.0, digit-char d h.0, small) (digits-number ds (0 * 16 + d) h.1)

before_semicolon-line :
    (ds : List ℕ)
    → All IsDigit ds
    → before_semicolon (hex_line ds ++ 10 ∷ []) ≡ hex_line ds ++ 10 ∷ []
unfolding before_semicolon nat_eq
before_semicolon-line ds h =
    let xs = map hex_char ds in
    ap before_semicolon (append_assoc xs (13 ∷ []) (10 ∷ []))
    ∙ before_semicolon-digits ds (13 ∷ 10 ∷ []) h
    ∙ sym (append_assoc xs (13 ∷ []) (10 ∷ []))

chunk_size-line :
    (d : ℕ) (ds : List ℕ)
    → All IsDigit (d ∷ ds)
    → chunk_size (hex_line (d ∷ ds) ++ 10 ∷ []) ≡ some (hex_number 0 (d ∷ ds))
unfolding chunk_size hex_value
chunk_size-line d ds h =
    ap (λ t. hex_value (strip_bytes t)) (before_semicolon-line (d ∷ ds) h)
    ∙ ap hex_value (strip_bytes-line d ds h)
    ∙ rw (all_hex-digits (d ∷ ds) h) (digits-first d ds h)

contains-line : (ds : List ℕ) → All IsDigit ds → contains (hex_line ds) 10 ≡ false
unfolding nat_eq
contains-line [] h = refl
contains-line (d ∷ ds) h = rw (not_newline d h.0) (contains-line ds h.1)

length-line : (ds : List ℕ) → length (hex_line ds) ≡ suc (length ds)
length-line [] = refl
length-line (d ∷ ds) = ap suc (length-line ds)

-- A number in hexadecimal: its digits, the first of them apart.
abbrev pub Hex : Type 0
Hex = ℕ × List ℕ

abbrev pub value : Hex → ℕ
value (d, ds) = hex_number 0 (d ∷ ds)

abbrev pub line_of : Hex → Bytes
line_of (d, ds) = hex_line (d ∷ ds)

-- All are digits, and few enough for the line to be read at once.
abbrev pub IsHex : Hex → Type 0
IsHex (d, ds) = All IsDigit (d ∷ ds) × (length ds < 1022)

-- A chunk on the wire: the digits of its size, and as many bytes, but not none.
abbrev pub IsChunk : Hex × Bytes → Type 0
IsChunk (n, content) = IsHex n × (value n ≡ length content) × (0 < length content)

abbrev pub framed : List (Hex × Bytes) → List Chunk
framed [] = []
framed ((n, content) ∷ cs) = record { size_line = line_of n; content = content } ∷ framed cs

abbrev pub body_of : List (Hex × Bytes) → Bytes
body_of [] = []
body_of ((n, content) ∷ cs) = content ++ body_of cs

IsSizeLine-hex : (n : Hex) → IsHex n → IsSizeLine (line_of n) (value n)
IsSizeLine-hex (d, ds) h =
    (contains-line (d ∷ ds) h.0, omega (arith, h.1, length-line (d ∷ ds)), chunk_size-line d ds h.0)

IsFramed-framed : (cs : List (Hex × Bytes)) → All IsChunk cs → All IsFramed (framed cs)
IsFramed-framed [] h = tt
IsFramed-framed ((n, content) ∷ cs) ((is, same, some_byte), h) =
    ((rw (sym same) (IsSizeLine-hex n is), some_byte), IsFramed-framed cs h)

contents-framed : (cs : List (Hex × Bytes)) → contents (framed cs) ≡ body_of cs
contents-framed [] = refl
contents-framed ((n, content) ∷ cs) = ap (λ t. content ++ t) (contents-framed cs)

-- Chunks whose sizes are written in lower-case hexadecimal, with fewer than 1023 digits, CRLF behind size
-- and content, no chunk extension, and behind them a size of zero and no trailers: where their contents
-- together are within the limit, they are read whole, and what follows on the wire is left.
pub read_chunked-wire :
    (cs : List (Hex × Bytes)) (limit : ℕ) (last : Hex) (rest : Bytes)
    → All IsChunk cs
    → IsHex last
    → value last ≡ 0
    → length (body_of cs) ≤ limit
    → read_chunked limit (encode (framed cs) (ending (line_of last) rest))
      ≡ complete (body_of cs) rest
read_chunked-wire cs limit last rest chunks is zero_size fits =
    read_chunked-encode (framed cs) limit (line_of last) rest (IsFramed-framed cs chunks)
      (rw zero_size at (IsSizeLine-hex last is))
      (omega (arith, fits, ap length (contents-framed cs)))
    ∙ ap (λ t. complete t rest) (contents-framed cs)
