-- ===== src/Tests/Types.antt =====
-- An upsert of an enum, a snapshot of the metrics, the version of IDA and a loop on a budget, in small
-- runs.
use ida_mcp.Prelude.{
  ◌≡◌, refl, true, false, Option, none, some, inl, List, [], ◌∷◌, text_eq, nat_eq,
}
use ida_mcp.Prelude.Int.{ℤ, pos, negsuc}
use ida_mcp.Prelude.Dict.{Dict, lookup, insert}
use ida_mcp.Text.{lower, strip, split, Text, lit}
use ida_mcp.Json.{Value, infinite, float, str, arr, obj, nil, cons, end, field}
use ida_mcp.Exec.{Result, ok, err, other, sync_error}
use ida_mcp.Number.{parse_int}
use ida_mcp.Tools.Enums.{Named, missing, enum_details, Til, enum_upsert, seed, overlay, upserted}
use ida_mcp.Tools.Enums.Merged.{sent, IsMerged, enum_upsert-IsMerged}
use ida_mcp.Compat.{parse_kernel_version}
use ida_mcp.State.{ToolStats, Stats}
use ida_mcp.Json.{text}
use ida_mcp.Mcp.Stats.Snapshot.{get_stats}
use ida_mcp.Mcp.Stats.Snapshot.Quantiles.{IsSnapshot, get_stats-IsSnapshot}
use ida_mcp.Prelude.{if◌then◌else◌, ◌==◌, ℕ_discrete, ℕ, ◌+◌, ◌≤◌, arith}
use ida_mcp.Tools.Limits.{split_addrs, parse_addr}
use ida_mcp.Tools.Signature.{check_format, no_code, make_from, insn_sig_bytes, conclude}
use ida_mcp.Tools.Budget.{
  Entry, fetched, budget_exceeded, clamp_length, make_signature, sig_budget, Ida, Signed, signed,
  unknown, hop,
}
use ida_mcp.Tools.Budget.Spent.{Ends, make_signature-IsServed}
use ida_mcp.Tests.Fixtures.{word}

abbrev Library : Type 0
Library = Dict Text (List (Text × ℤ))

abbrev found : Option (List (Text × ℤ)) → Named
found none = missing
found (some ms) = enum_details ms

abbrev library : Til Library
library = record {
  named = λ name t. found (lookup name t);
  create_enum = λ d. true;
  set_named_type = λ name d replace t. (none, insert name d t);
}

abbrev shown : Value → Text
shown (str t) = t
shown v = []

-- An enum "e" with a = 1 and b = 2.
abbrev known : List (Text × ℤ)
known = (word b'a', pos 1) ∷ (word b'b', pos 2) ∷ []

abbrev content : Library
content = (word b'e', known) ∷ []

abbrev given : List (Text × ℤ)
given = (word b'c', pos 7) ∷ (word b'b', negsuc 0) ∷ []

enum_upsert-IsMerged_example :
    IsMerged library
      (word b'e')
      content
      false
      known
      given
      (enum_upsert library (word b'e') shown (inl (arr (sent given))) content)
unfolding seed overlay insert text_eq lookup
enum_upsert-IsMerged_example =
    enum_upsert-IsMerged library shown (word b'e') given content false known (λ s. refl) refl
      (record { built = λ d. refl; set = λ d replace. refl })

-- The stored members: a and b keep their places, b is overwritten, c is added.
merged : enum_upsert library (word b'e') shown (inl (arr (sent given))) content ≡ (
  ok (upserted false ((word b'a', pos 1) ∷ (word b'b', negsuc 0) ∷ (word b'c', pos 7) ∷ [])),
  (word b'e', (word b'a', pos 1) ∷ (word b'b', negsuc 0) ∷ (word b'c', pos 7) ∷ []) ∷ [],
)
unfolding enum_upsert lookup insert text_eq lit
merged = refl

-- A value of 1e999 passes the handlers.
overflows :
    enum_upsert library
      (word b'e')
      shown
      (inl (
        arr (
          cons
            (obj (
              field
                (lit "name")
                (str (word b'a'))
                (field (lit "value") (float (infinite true)) end)))
            nil)))
      content
    ≡ (err (other (lit "OverflowError") (lit "cannot convert float infinity to integer")), content)
unfolding enum_upsert lookup insert text_eq lit
overflows = refl

abbrev calm : ToolStats
calm = record { calls = 1; errors = 0; busy = 0; durations = [] }

abbrev used : ToolStats
used = record { calls = 3; errors = 1; busy = 0; durations = 9 ∷ 2 ∷ 5 ∷ [] }

abbrev metrics : Stats
metrics = record {
  tools = (text (word b'a'), calm) ∷ (text (word b'b'), used) ∷ [];
  total_calls = 4;
  total_errors = 1;
  total_busy = 0;
}

get_stats-IsSnapshot_example : IsSnapshot (λ d. d) (pos 1) metrics
get_stats-IsSnapshot_example = get_stats-IsSnapshot (λ d. d) (pos 1) metrics (λ a b h. h)

busiest :
    (get_stats (λ d. d) (pos 1) metrics).tools
    ≡ record {
      name = text (word b'b');
      calls = 3;
      errors = 1;
      busy = 0;
      p50 = some 5;
      p95 = some 9;
      max_ms = some 9;
    }
      ∷ []
unfolding get_stats nat_eq
busiest = refl

service_pack : parse_kernel_version (lit "9.2sp1") ≡ (9, 2, 1)
unfolding parse_kernel_version lit
service_pack = refl

-- A hop takes 100 seconds; no byte is code, and the third address is interrupted.
abbrev slow : Ida
slow = record {
  name_ea = λ name. none;
  decode = λ ea. none;
  find = λ pattern ea. none;
  min_ea = 0;
  cancelled = λ n. false;
  breaks = λ ea. false;
  wrapper = λ q t. (if q == word b'3' then some (sync_error []) else none, t + 100000);
}

make_signature-IsServed_example :
    (results : Result (List (Entry Signed))) × (end : ℕ) × (make_signature slow
        (lit "1,x,2")
        (lit "ida")
        true
        (pos 20)
        5
      ≡ (some results, end))
    × Ends (hop slow (clamp_length (pos 20)) true (lit "ida")) (split_addrs (lit "1,x,2")) results
    × (end ≤ 5 + sig_budget + 100000)
unfolding check_format text_eq nat_eq lit lower strip
make_signature-IsServed_example =
    make_signature-IsServed slow (lit "1,x,2") (lit "ida") (lit "ida") true (pos 20) 5 100000 refl
      (λ q t. (omega arith, omega arith))

-- The third address comes after the budget.
slow_run : make_signature slow (lit "1,x,2") (lit "ida") true (pos 20) 5 ≡ (
  some (
      ok (
        fetched (signed (word b'1') 1 (lit "ida") no_code)
        ∷ fetched (unknown (word b'x'))
        ∷ budget_exceeded (word b'2')
        ∷ [])),
  200005,
)
unfolding make_signature text_eq nat_eq lit lower strip split ℕ_discrete parse_int parse_addr
    make_from insn_sig_bytes conclude
slow_run = refl

-- An interrupt leaves the tool.
interrupted_run :
    make_signature slow (lit "1,3,2") (lit "ida") true (pos 20) 5
    ≡ (some (err (sync_error [])), 200005)
unfolding make_signature text_eq nat_eq lit lower strip split ℕ_discrete parse_int
interrupted_run = refl
