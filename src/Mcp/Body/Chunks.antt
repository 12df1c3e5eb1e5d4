-- ===== src/Mcp/Body/Chunks.antt =====
-- Bodies that a client sent in chunks.
pub mod Wire
use ida_mcp.Prelude.{
  append_nil, append_assoc, ℕ, zero, suc, ◌+◌, ◌-◌, ◌≤◌, ◌<◌, ◌≡◌, refl, ap, sym, ◌∙◌, false, some,
  List, [], ◌∷◌, ◌++◌, min, arith, length, take, drop, length-append, All, ◌==◌, contains,
  Bool-cases, nat_eq, inl, inr,
}
use mathlib.Core.Option
use ida_mcp.Mcp.Body.{
  Bytes, read_line, strip_bytes, strip_front, is_byte_space, chunk_size, skip_trailers, complete,
  read_chunks, read_chunked,
}
use ida_mcp.Mcp.Body.Bounds.{grown, left_over, next_input, rounds}

-- A chunk as it is sent: the line with its size, and what that line announces.
pub record Chunk : Type 0 where
  pub size_line : Bytes
  pub content : Bytes

-- The line is one line, short enough to be read at once, and announces `n` bytes.
abbrev pub IsSizeLine : Bytes → ℕ → Type 0
IsSizeLine line n =
    (contains line 10 ≡ false) × (length line < 1024) × (chunk_size (line ++ 10 ∷ []) ≡ some n)

abbrev pub IsFramed : Chunk → Type 0
IsFramed c = IsSizeLine c.size_line (length c.content) × (0 < length c.content)

-- The chunks on the wire, each with CRLF behind its content.
abbrev pub encode : List Chunk → Bytes → Bytes
encode [] end_ = end_
encode (c ∷ cs) end_ = c.size_line ++ 10 ∷ (c.content ++ 13 ∷ 10 ∷ encode cs end_)

-- The last line, and an empty line in place of trailers.
abbrev pub ending : Bytes → Bytes → Bytes
ending line rest = line ++ 10 ∷ 13 ∷ 10 ∷ rest

abbrev pub contents : List Chunk → Bytes
contents [] = []
contents (c ∷ cs) = c.content ++ contents cs

read_line-whole :
    (n : ℕ) (line rest : Bytes)
    → contains line 10 ≡ false
    → length line < n
    → read_line n (line ++ 10 ∷ rest) ≡ (line ++ 10 ∷ [], rest)
unfolding read_line nat_eq
read_line-whole zero line rest one short = absurd (omega arith)
read_line-whole (suc n) [] rest one short = refl
read_line-whole (suc n) (c ∷ line) rest one short = elim (Bool-cases (c == 10)) [
  | inl e ↦ absurd (ground arith)
  | inr e ↦ let more = read_line-whole n line rest (ground arith) (omega arith) in rw (e, more) refl
]

take-append : (xs ys : Bytes) → take (length xs) (xs ++ ys) ≡ xs
take-append [] ys = refl
take-append (x ∷ xs) ys = ap (λ zs. x ∷ zs) (take-append xs ys)

drop-append : (xs ys : Bytes) → drop (length xs) (xs ++ ys) ≡ ys
drop-append [] ys = refl
drop-append (x ∷ xs) ys = drop-append xs ys

skip_trailers-none : (fuel : ℕ) (rest : Bytes) → skip_trailers (suc fuel) (13 ∷ 10 ∷ rest) ≡ rest
unfolding skip_trailers read_line strip_bytes strip_front is_byte_space nat_eq
skip_trailers-none fuel rest = refl

-- One chunk that fits, on the wire.
module _ (limit : ℕ) (body : Bytes) (c : Chunk) (tail : Bytes) (is : IsFramed c)
    (fits : length body + length c.content ≤ limit) where
  abbrev input : Bytes
  input = c.size_line ++ 10 ∷ (c.content ++ 13 ∷ 10 ∷ tail)

  first_line : read_line 1024 input ≡ (c.size_line ++ 10 ∷ [], c.content ++ 13 ∷ 10 ∷ tail)
  first_line = read_line-whole 1024 c.size_line (c.content ++ 13 ∷ 10 ∷ tail) is.0.0 is.0.1

  size-is : chunk_size (read_line 1024 input).0 ≡ some (length c.content)
  size-is = rw first_line is.0.2

  wanted :
      (n : ℕ) → length c.content ≡ suc n → min (suc n) (limit + 1 - length body) ≡ length c.content
  wanted n e = omega arith

  grown-is : (n : ℕ) → length c.content ≡ suc n → grown limit body input n ≡ body ++ c.content
  grown-is n e = rw (first_line, wanted n e, take-append c.content (13 ∷ 10 ∷ tail)) refl

  left_over-is : (n : ℕ) → length c.content ≡ suc n → left_over limit body input n ≡ 13 ∷ 10 ∷ tail
  left_over-is n e = rw (first_line, wanted n e, drop-append c.content (13 ∷ 10 ∷ tail)) refl

  next_input-is : (n : ℕ) → length c.content ≡ suc n → next_input limit body input n ≡ tail
  unfolding read_line nat_eq
  next_input-is n e = ap (λ r. (read_line (length r) r).1) (left_over-is n e)

abbrev pub size : List Chunk → ℕ
size cs = length (contents cs)

chunks-le : (cs : List Chunk) (end_ : Bytes) → length cs ≤ length (encode cs end_)
chunks-le [] end_ = omega arith
chunks-le (c ∷ cs) end_ = omega (
  arith,
  chunks-le cs end_,
  length-append c.size_line (10 ∷ (c.content ++ 13 ∷ 10 ∷ encode cs end_)),
  length-append c.content (13 ∷ 10 ∷ encode cs end_),
)

decode :
    (cs : List Chunk) (fuel limit : ℕ) (body line rest : Bytes)
    → All IsFramed cs
    → IsSizeLine line 0
    → length body + size cs ≤ limit
    → length cs < fuel
    → read_chunks fuel limit body (encode cs (ending line rest))
      ≡ complete (body ++ contents cs) rest
decode cs zero limit body line rest framed last fits enough = absurd (omega arith)
decode [] (suc fuel) limit body line rest framed last fits enough =
    let read = read_line-whole 1024 line (13 ∷ 10 ∷ rest) last.0 last.1 in
    rounds (λ r. r ≡ complete (body ++ []) rest) fuel limit body (ending line rest)
      (λ bad. absurd (cc (bad, ap (λ r. chunk_size r.0) read, last.2)))
      (λ zero_size.
        let rest_line = ap (λ r. r.1) read in
        rw (rest_line, skip_trailers-none (suc (suc (length rest))) rest, append_nil body) refl)
      (λ n e far. absurd (cc (e, ap (λ r. chunk_size r.0) read, last.2)))
      (λ n e near. absurd (cc (e, ap (λ r. chunk_size r.0) read, last.2)))
decode (c ∷ cs) (suc fuel) limit body line rest framed last fits enough =
    rounds (λ r. r ≡ complete (body ++ contents (c ∷ cs)) rest) fuel limit body _
      (λ bad. absurd (cc (bad, announced)))
      (λ zero_size.
        let none_left : length c.content ≡ 0 = Option.some_inj.0 (sym announced ∙ zero_size) in
        absurd (omega (arith, framed.0.1)))
      (λ n e far. absurd (
        omega (
          arith,
          ap length (grown-is limit body c tail framed.0 room n (same n e)),
          length-append body c.content,
          room,
        )))
      (λ n e near.
        rw
          (
            grown-is limit body c tail framed.0 room n (same n e),
            next_input-is limit body c tail framed.0 room n (same n e),
            decode cs fuel limit (body ++ c.content) line rest framed.1 last
                (omega (arith, length-append body c.content, length-append c.content (contents cs)))
                (omega arith),
            append_assoc body c.content (contents cs),
          )
          refl)
  where
    tail : Bytes
    tail = encode cs (ending line rest)

    room : length body + length c.content ≤ limit
    room = omega (arith, length-append c.content (contents cs))

    announced :
        chunk_size (read_line 1024 (encode (c ∷ cs) (ending line rest))).0 ≡ some (length c.content)
    announced = size-is limit body c tail framed.0 room

    same :
        (n : ℕ)
        → chunk_size (read_line 1024 (encode (c ∷ cs) (ending line rest))).0 ≡ some (suc n)
        → length c.content ≡ suc n
    same n e = Option.some_inj.0 (sym announced ∙ e)

-- Where each size line is a single one of fewer than 1024 bytes that is read as the size of its content,
-- and no trailers follow, the contents within the limit come out one after the other, and the input behind
-- them is left.
pub read_chunked-encode :
    (cs : List Chunk) (limit : ℕ) (line rest : Bytes)
    → All IsFramed cs
    → IsSizeLine line 0
    → length (contents cs) ≤ limit
    → read_chunked limit (encode cs (ending line rest)) ≡ complete (contents cs) rest
unfolding read_chunked
read_chunked-encode cs limit line rest framed last fits =
    decode cs (suc (length (encode cs (ending line rest)))) limit [] line rest framed last
      (omega (arith, fits)) (omega (arith, chunks-le cs (ending line rest)))
