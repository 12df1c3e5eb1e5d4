-- ===== src/Mcp/Body.antt =====
-- The body of a POST (mcp.py: McpHttpRequestHandler._read_body, _read_chunked, _decompress_body).
-- Bytes are numbers below 256; the socket is the list of the bytes that are still to come, up to its
-- end. zlib is a parameter.
pub mod Bounds
pub mod Chunks
use mathlib.Core.List.{reverse}
use ida_mcp.Prelude.{
  ℕ, zero, suc, ◌+◌, ◌-◌, ◌≡◌, refl, Bool, true, false, not, ◌&&◌, ◌||◌, Option, none, some, List,
  [], ◌∷◌, ◌++◌, min, leb, ltb, length, take, drop, if◌then◌else◌, ◌==◌, contains, nat_eq, text_eq,
}
use ida_mcp.Prelude.Int.{ℤ, pos, negsuc}
use ida_mcp.Text.{Text, lit, strip, lower, starts_with, is_empty}
use ida_mcp.Number.{digit, digits, parse_decimal}

abbrev pub Bytes : Type 0
Bytes = List ℕ

-- rfile.readline(limit): up to a newline, the limit or the end; with what comes after
unfoldable pub read_line : ℕ → Bytes → Bytes × Bytes
read_line zero input = ([], input)
read_line (suc n) [] = ([], [])
read_line (suc n) (c ∷ input) =
    let more = read_line n input in if c == 10 then (c ∷ [], input) else (c ∷ more.0, more.1)

-- bytes.isspace, on one byte
unfoldable pub is_byte_space : ℕ → Bool
is_byte_space c = (leb 9 c && leb c 13) || c == 32

unfoldable pub strip_front : Bytes → Bytes
unfolding is_byte_space
strip_front [] = []
strip_front (c ∷ t) = let rest = strip_front t in if is_byte_space c then rest else c ∷ t

unfoldable pub strip_bytes : Bytes → Bytes
unfolding strip_front
strip_bytes t = reverse (strip_front (reverse (strip_front t)))

-- line.split(b";")[0]
unfoldable pub before_semicolon : Bytes → Bytes
before_semicolon [] = []
before_semicolon (c ∷ t) = let rest = before_semicolon t in if c == b';' then [] else c ∷ rest

unfoldable pub is_hex : ℕ → Bool
is_hex c = (leb b'0' c && leb c b'9') || (leb b'a' c && leb c b'f') || (leb b'A' c && leb c b'F')

unfoldable pub all_hex : Bytes → Bool
unfolding is_hex
all_hex [] = true
all_hex (c ∷ t) = is_hex c && all_hex t

unfoldable pub hex_value : Bytes → Option ℕ
unfolding all_hex digits
hex_value [] = none
hex_value (c ∷ t) = if all_hex (c ∷ t) then digits 16 true 0 (c ∷ t) else none

-- The size that a chunk's first line announces; none: malformed.
unfoldable pub chunk_size : Bytes → Option ℕ
chunk_size line = hex_value (strip_bytes (before_semicolon line))

-- while readline().strip(): pass
unfoldable pub skip_trailers : ℕ → Bytes → Bytes
skip_trailers zero input = input
skip_trailers (suc fuel) input =
    let (line, rest) = read_line (length input) input in
    let more = skip_trailers fuel rest in if is_empty (strip_bytes line) then rest else more

pub data Chunked : Type 0 where
  complete : Bytes → Bytes → Chunked  -- the body, and what is left of the input
  malformed : Chunked
  spent : Chunked  -- the fuel ran out

-- The loop of _read_chunked. A body beyond the limit is returned as soon as it is seen.
unfoldable pub read_chunks : ℕ → ℕ → Bytes → Bytes → Chunked
read_chunks zero limit body input = spent
read_chunks (suc fuel) limit body input =
    let (line, rest) = read_line 1024 input in
    elim (chunk_size line) [
      | none ↦ malformed
      | some size ↦ elim size [
        | zero ↦ complete body (skip_trailers (suc (length rest)) rest)
        | suc n ↦
            let wanted = min (suc n) (limit + 1 - length body) in
            let body' = body ++ take wanted rest in
            let rest' = drop wanted rest in
            let next = read_chunks fuel limit body' (read_line (length rest') rest').1 in
            if ltb limit (length body') then complete body' rest' else next
      ]
    ]

-- Each round takes a byte at least, so this fuel is enough.
unfoldable pub read_chunked : ℕ → Bytes → Chunked
read_chunked limit input = read_chunks (suc (length input)) limit [] input

pub data Codec : Type 0 where
  gzip zlib raw_deflate : Codec

-- zlib.decompressobj(wbits).decompress(data, max_length); none: zlib.error
abbrev pub Inflate : Type 0
Inflate = Codec → Bytes → ℕ → Option Bytes

pub data Body : Type 0 where
  accepted : Bytes → Body
  refused : ℕ → Text → Body  -- the status that is sent, and its message

pub too_large : Body
too_large = refused 413 (lit "Payload Too Large")

within_limit : ℕ → Option Bytes → Body
unfolding too_large
within_limit limit none = refused 400 (lit "Bad Content-Encoding")
within_limit limit (some out) = if ltb limit (length out) then too_large else accepted out

inflate_deflate : Inflate → Bytes → ℕ → Option Bytes
inflate_deflate inflate input max_length = elim (inflate zlib input max_length) [
  | some out ↦ some out
  | none ↦ inflate raw_deflate input max_length
]

unfoldable pub decompress_body : Inflate → ℕ → Text → Bytes → Body
unfolding within_limit inflate_deflate
decompress_body inflate limit header input =
    let encoding = strip (lower header) in
    if is_empty encoding
    then accepted input
    else if contains (lit "gzip" ∷ lit "x-gzip" ∷ []) encoding
    then within_limit limit (inflate gzip input (limit + 1))
    else if encoding == lit "deflate"
    then within_limit limit (inflate_deflate inflate input (limit + 1))
    else accepted input

pub record Post : Type 0 where
  pub transfer_encoding : Text
  pub content_length : Option Text
  pub content_encoding : Text
  pub input : Bytes

-- int(header), where a missing or malformed header counts as 0, and a negative one reads nothing
unfoldable pub announced : Option Text → ℕ
announced none = 0
announced (some t) = elim (parse_decimal t) [
  | none ↦ 0
  | some i ↦ elim i [ pos n ↦ n | negsuc n ↦ 0 ]
]

-- "chunked" in the header, case-insensitively
unfoldable pub includes : Text → Text → Bool
includes word [] = is_empty word
includes word (c ∷ t) = starts_with word (c ∷ t) || includes word t

pub finish_body : Inflate → ℕ → Post → Bytes → Body
unfolding decompress_body too_large
finish_body inflate limit p raw =
    if ltb limit (length raw)
    then too_large
    else decompress_body inflate limit p.content_encoding raw

pub of_chunked : Inflate → ℕ → Post → Chunked → Body
of_chunked inflate limit p (complete raw rest) = finish_body inflate limit p raw
of_chunked inflate limit p malformed = refused 400 (lit "Malformed chunked body")
of_chunked inflate limit p spent = refused 400 (lit "Malformed chunked body")

unfoldable pub read_body : Inflate → ℕ → Post → Body
read_body inflate limit p =
    if includes (lit "chunked") (lower p.transfer_encoding)
    then of_chunked inflate limit p (read_chunked limit p.input)
    else if ltb limit (announced p.content_length)
    then too_large
    else finish_body inflate limit p (take (announced p.content_length) p.input)
