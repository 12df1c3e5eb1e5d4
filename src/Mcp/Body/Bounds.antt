-- ===== src/Mcp/Body/Bounds.antt =====
-- No body beyond the limit is accepted, and no more than one byte beyond it is kept while reading.
use ida_mcp.Prelude.{
  ℕ, zero, suc, ◌+◌, ◌-◌, ◌≤◌, ◌<◌, ◌≡◌, refl, inl, inr, Bool, true, false, Option, none, some, [],
  ◌∷◌, ◌++◌, min, ltb, arith, length, take, drop, length-append, length-take, length-drop,
  if◌then◌else◌, Bool-cases, nat_eq,
}
use ida_mcp.Text.{Text}
use ida_mcp.Mcp.Body.{
  Bytes, read_line, skip_trailers, chunk_size, strip_bytes, before_semicolon, hex_value, Chunked,
  complete, malformed, spent, read_chunks, read_chunked, Body, accepted, refused, Inflate, Post,
  decompress_body, within_limit, finish_body, of_chunked, read_body, too_large,
}

-- What was accepted is at most `limit` long; or nothing was.
pub data IsWithin (limit : ℕ) : Body → Type 0 where
  fits : (b : Bytes) → length b ≤ limit → IsWithin limit (accepted b)
  turned_down : (status : ℕ) (message : Text) → IsWithin limit (refused status message)

abbrev pub ChunksWithin : ℕ → Chunked → Type 0
ChunksWithin limit (complete body rest) = length body ≤ limit + 1
ChunksWithin limit _ = Unit

abbrev pub IsSpent : Chunked → Type 0
IsSpent spent = Unit
IsSpent _ = ⊥

read_line-length :
    (n : ℕ) (input : Bytes)
    → length (read_line n input).0 + length (read_line n input).1 ≡ length input
unfolding read_line
read_line-length zero input = omega arith
read_line-length (suc n) [] = refl
read_line-length (suc n) (c ∷ input) = ground (arith, read_line-length n input)

chunk_size-nil : chunk_size [] ≡ none
unfolding chunk_size strip_bytes before_semicolon hex_value
chunk_size-nil = refl

-- Where the chunks are not malformed, the size line was not empty.
chunk_size-some : (line : Bytes) (n : ℕ) → chunk_size line ≡ some n → 0 < length line
chunk_size-some [] n h = absurd (cc (h, chunk_size-nil))
chunk_size-some (c ∷ t) n h = omega arith

-- One round with a chunk of `suc n` bytes: what the body becomes and what is left of the input.
abbrev pub grown : ℕ → Bytes → Bytes → ℕ → Bytes
grown limit body input n =
    body ++ take (min (suc n) (limit + 1 - length body)) (read_line 1024 input).1

abbrev pub left_over : ℕ → Bytes → Bytes → ℕ → Bytes
left_over limit body input n = drop (min (suc n) (limit + 1 - length body)) (read_line 1024 input).1

abbrev pub next_input : ℕ → Bytes → Bytes → ℕ → Bytes
next_input limit body input n =
    let rest = left_over limit body input n in (read_line (length rest) rest).1

grown-le :
    (limit : ℕ) (body input : Bytes) (n : ℕ)
    → length body ≤ limit
    → length (grown limit body input n) ≤ limit + 1
grown-le limit body input n h =
    let k = min (suc n) (limit + 1 - length body) in
    let rest = (read_line 1024 input).1 in
    omega (arith, length-append body (take k rest), length-take k rest)

-- The rounds of the loop, for a property that the last round decides.
pub rounds {ℓ} :
    (P : Chunked → Type ℓ) (fuel limit : ℕ) (body input : Bytes)
    → (chunk_size (read_line 1024 input).0 ≡ none → P malformed)
    → (chunk_size (read_line 1024 input).0 ≡ some 0
        → P (
            complete body
              (skip_trailers (suc (length (read_line 1024 input).1)) (read_line 1024 input).1)))
    → ((n : ℕ)
        → chunk_size (read_line 1024 input).0 ≡ some (suc n)
        → limit < length (grown limit body input n)
        → P (complete (grown limit body input n) (left_over limit body input n)))
    → ((n : ℕ)
        → chunk_size (read_line 1024 input).0 ≡ some (suc n)
        → length (grown limit body input n) ≤ limit
        → P (read_chunks fuel limit (grown limit body input n) (next_input limit body input n)))
    → P (read_chunks (suc fuel) limit body input)
unfolding read_chunks
rounds P fuel limit body input bad last over more =
    by_size (chunk_size (read_line 1024 input).0) refl
  where
    by_size :
        (o : Option ℕ)
        → chunk_size (read_line 1024 input).0 ≡ o
        → P (read_chunks (suc fuel) limit body input)
    by_size none e = rw (e, read_chunks) (bad e)
    by_size (some zero) e = rw (e, read_chunks) (last e)
    by_size (some (suc n)) e = elim (Bool-cases (ltb limit (length (grown limit body input n)))) [
      | inl far ↦ rw (e, far, read_chunks) (over n e (ground arith))
      | inr near ↦ rw (e, near, read_chunks) (more n e (ground arith))
    ]

read_chunks-within :
    (fuel limit : ℕ) (body input : Bytes)
    → length body ≤ limit
    → ChunksWithin limit (read_chunks fuel limit body input)
read_chunks-within zero limit body input h = unfold read_chunks in tt
read_chunks-within (suc fuel) limit body input h =
    rounds (ChunksWithin limit) fuel limit body input (λ e. tt) (λ e. omega (arith, h))
      (λ n e far. grown-le limit body input n h)
      (λ n e near.
        read_chunks-within fuel limit (grown limit body input n) (next_input limit body input n)
          near)

read_chunks-ends :
    (fuel limit : ℕ) (body input : Bytes)
    → length body ≤ limit
    → length input < fuel
    → ¬ IsSpent (read_chunks fuel limit body input)
read_chunks-ends zero limit body input h short = absurd (omega arith)
read_chunks-ends (suc fuel) limit body input h short =
    rounds (λ c. ¬ IsSpent c) fuel limit body input (λ e x. x) (λ e x. x) (λ n e far x. x)
      (λ n e near.
        let rest = left_over limit body input n in
        read_chunks-ends fuel limit (grown limit body input n) (next_input limit body input n) near
          (omega (
            arith,
            chunk_size-some (read_line 1024 input).0 (suc n) e,
            read_line-length 1024 input,
            read_line-length (length rest) rest,
            length-drop (min (suc n) (limit + 1 - length body)) (read_line 1024 input).1,
          )))

-- Reading a chunked body ends on every input, and holds at most one byte more than the limit.
pub read_chunked_bounds :
    (limit : ℕ) (input : Bytes)
    → (¬ IsSpent (read_chunked limit input)) × ChunksWithin limit (read_chunked limit input)
unfolding read_chunked
read_chunked_bounds limit input = (
  read_chunks-ends _ limit [] input (omega arith) (omega arith),
  read_chunks-within _ limit [] input (omega arith),
)

IsWithin-if :
    (limit : ℕ) (b : Bool) (x y : Body)
    → IsWithin limit x
    → IsWithin limit y
    → IsWithin limit (if b then x else y)
IsWithin-if limit true x y p q = p
IsWithin-if limit false x y p q = q

within_limit-IsWithin : (limit : ℕ) (o : Option Bytes) → IsWithin limit (within_limit limit o)
unfolding within_limit too_large
within_limit-IsWithin limit none = turned_down _ _
within_limit-IsWithin limit (some out) = elim (Bool-cases (ltb limit (length out))) [
  | inl far ↦ rw far (turned_down _ _)
  | inr near ↦ rw near (fits out (ground arith))
]

module _ (inflate : Inflate) (limit : ℕ) where
  decompress-IsWithin :
      (header : Text) (input : Bytes)
      → length input ≤ limit
      → IsWithin limit (decompress_body inflate limit header input)
  unfolding decompress_body
  decompress-IsWithin header input h = search (IsWithin-if, within_limit-IsWithin, fits)

  finish-IsWithin : (p : Post) (raw : Bytes) → IsWithin limit (finish_body inflate limit p raw)
  unfolding finish_body too_large
  finish-IsWithin p raw = elim (Bool-cases (ltb limit (length raw))) [
    | inl far ↦ rw far (turned_down _ _)
    | inr near ↦ rw near (decompress-IsWithin p.content_encoding raw (ground arith))
  ]

  of_chunked-IsWithin : (p : Post) (c : Chunked) → IsWithin limit (of_chunked inflate limit p c)
  unfolding of_chunked
  of_chunked-IsWithin p (complete raw rest) = finish-IsWithin p raw
  of_chunked-IsWithin p malformed = turned_down _ _
  of_chunked-IsWithin p spent = turned_down _ _

  too_large-IsWithin : IsWithin limit too_large
  unfolding too_large
  too_large-IsWithin = turned_down _ _

  -- An accepted body, after decompression too, is no longer than the limit, however it was framed
  -- and whatever zlib returned.
  pub read_body-IsWithin : (p : Post) → IsWithin limit (read_body inflate limit p)
  unfolding read_body
  read_body-IsWithin p =
      search (IsWithin-if, of_chunked-IsWithin, too_large-IsWithin, finish-IsWithin)
