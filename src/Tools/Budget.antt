-- ===== src/Tools/Budget.antt =====
-- The loop of a tool over addresses, each in a hop of its own (api_sigmaker.py:
-- _fetch_one_signature, make_signature). IDA and the clock are parameters; times are milliseconds.
pub mod Spent
use ida_mcp.Prelude.{
  ℕ, ◌-◌, Bool, true, false, Option, none, some, List, [], ◌∷◌, length, leb, if◌then◌else◌, min,
  max,
}
use ida_mcp.Prelude.Int.{ℤ, pos, negsuc}
use ida_mcp.Text.{Text}
use ida_mcp.Exec.{Raised, Result, ok, err}
use ida_mcp.Tools.Signature.{check_format, Insn, Search, Made, make_unique}
use ida_mcp.Tools.Limits.{split_addrs, parse_addr, spelled}

-- _SIG_BUDGET_SEC
abbrev pub sig_budget : ℕ
sig_budget = 120000

pub data Entry (R : Type 0) : Type 0 where
  fetched : R → Entry R
  budget_exceeded : Text → Entry R

-- The maximum length, between 1 and 10000.
unfoldable pub clamp_length : ℤ → ℕ
clamp_length (pos n) = max 1 (min n 10000)
clamp_length (negsuc n) = 1

-- What a loop over addresses comes to, and the time at its end.
abbrev pub Run : Type 0 → Type 0
Run R = Result (List (Entry R)) × ℕ

abbrev pub prepend : {R : Type 0} → Entry R → Run R → Run R
prepend e (ok es, end) = (ok (e ∷ es), end)
prepend e (err x, end) = (err x, end)

module _ {R : Type 0} (fetch : Text → ℕ → Result R × ℕ) where
  abbrev pub onward : Result R → Run R → ℕ → Run R
  onward (ok r) rest later = prepend (fetched r) rest
  onward (err x) rest later = (err x, later)

  -- for query in queries, from the time `start` on; now is the time. What a hop raises (IDASyncError or
  -- CancelledError of the wrapper, IDAError) leaves the loop.
  unfoldable pub hops : ℕ → List Text → ℕ → Run R
  hops start [] now = (ok [], now)
  hops start (q ∷ qs) now = elim (leb sig_budget (now - start)) [
    | true ↦ prepend (budget_exceeded q) (hops start qs now)
    | false ↦ let hop = fetch q now in onward hop.0 (hops start qs hop.1) hop.1
  ]

-- IDA, and for a hop that starts at a time what sync.py's wrapper raises, if anything, with the time at
-- which the hop ends. Where `breaks`, a call of the SDK raises for the address.
pub record Ida : Type 0 where
  pub name_ea : Text → Option ℕ
  pub decode : ℕ → Option Insn
  pub find : Search
  pub min_ea : ℕ
  pub cancelled : ℕ → Bool
  pub breaks : ℕ → Bool
  pub wrapper : Text → ℕ → Option Raised × ℕ

-- The answer for one address: what _make_unique returned is rendered in the format.
pub data Signed : Type 0 where
  unknown : Text → Signed
  failed : Text → Signed
  signed : Text → ℕ → Text → Made → Signed

-- The SDK takes no address below zero: it raises.
unfoldable pub signed_at : Ida → ℕ → Bool → Text → Text → ℤ → Signed
unfolding make_unique
signed_at ida max_length wildcard fmt query (negsuc n) = failed query
signed_at ida max_length wildcard fmt query (pos ea) =
    if ida.breaks ea
    then failed query
    else signed query ea fmt
        (make_unique ida.decode ida.find ida.min_ea ida.cancelled ea max_length wildcard)

-- _fetch_one_signature, without its wrapper
unfoldable pub fetch_one_signature : Ida → ℕ → Bool → Text → Text → Signed
unfolding signed_at
fetch_one_signature ida max_length wildcard fmt query =
    elim (parse_addr ida.name_ea (spelled query)) [
      | none ↦ unknown query
      | some ea ↦ signed_at ida max_length wildcard fmt query ea
    ]

-- ... and in it
unfoldable pub hop : Ida → ℕ → Bool → Text → Text → ℕ → Result Signed × ℕ
unfolding fetch_one_signature
hop ida max_length wildcard fmt query now =
    let (raised, end) = ida.wrapper query now in
    (
      elim raised [
        | some e ↦ err e
        | none ↦ ok (fetch_one_signature ida max_length wildcard fmt query)
      ],
      end,
    )

-- make_signature, at the time `now`; none: an unknown format
unfoldable pub make_signature :
    Ida → Text → Text → Bool → ℤ → ℕ → Option (Result (List (Entry Signed))) × ℕ
unfolding check_format split_addrs hops clamp_length hop
make_signature ida addresses format wildcard max_length now = elim (check_format format) [
  | none ↦ (none, now)
  | some fmt ↦
      let (results, end) =
        hops (hop ida (clamp_length max_length) wildcard fmt) now (split_addrs addresses) now in
      (some results, end)
]
