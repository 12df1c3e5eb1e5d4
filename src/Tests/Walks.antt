-- ===== src/Tests/Walks.antt =====
-- Tools that walk the database, on a small one.
use mathlib.Core.List.{Memᴰ}
use ida_mcp.Prelude.{
  ℕ, ◌≤◌, ◌≡◌, refl, ◌↔◌, true, false, Option, none, some, List, [], ◌∷◌, map, arith, length, drop,
  take, ltb, Bool-cases, inl, inr, if◌then◌else◌, ◌==◌, nat_eq, ℕ_discrete, max,
}
use ida_mcp.Prelude.Int.{pos, minus}
use ida_mcp.Prelude.Dict.{insert}
use ida_mcp.Text.{lit, is_empty, is_space}
use ida_mcp.Exec.{ok}
use ida_mcp.Number.{parse_int}
use ida_mcp.Tools.Trace
use ida_mcp.Tools.Trace.{Search, Xref, forward, whole, trace, code, data_item, clamp_depth}
use ida_mcp.Tools.Trace.Bounds.{IsCapped, trace-IsCapped}
use ida_mcp.Tools.Trace.Depths.{place, Walk}
use ida_mcp.Tools.Trace.Reached.{trace-shortest}
use ida_mcp.Tools.Callgraph
use ida_mcp.Tools.Callgraph.{Graph, Limits, collect}
use ida_mcp.Tools.Callgraph.Degrees.{out}
use ida_mcp.Tools.Callgraph.Reached.{IsReached, collect-IsReached}
use ida_mcp.Tools.Convert.{int_convert, formats, too_big, size_of}
use ida_mcp.Tools.Convert.Bytes.{from_bytes, int_convert-from_bytes}
use ida_mcp.Tools.Search.{norm_pattern, matches, find_bytes, limit_of}
use ida_mcp.Tools.Search.Pages.{IsSearch, all_from, find_bytes-slices}
use ida_mcp.Tests.Fixtures.{word}

-- 1 refers to 2 and 3, and 2 to 3.
abbrev xrefs_of : ℕ → List Xref
xrefs_of ea =
    if ea == 1
    then record { frm = 1; to = 2; iscode = true } ∷ record { frm = 1; to = 3; iscode = false } ∷ []
    else if ea == 2
    then record { frm = 2; to = 3; iscode = true } ∷ []
    else []

abbrev database : Trace.Ida
database = record {
  get_func = λ ea. true;
  get_func_name = λ ea. word b'f';
  is_loaded = λ ea. true;
  get_disasm = λ ea. some (word b'i');
  get_name = λ ea. some [];
  xrefs_from = λ ea. some (xrefs_of ea);
  xrefs_to = λ ea. none;
  poll = λ n. false;
}

abbrev node : ℕ → ℕ → Trace.Node
node ea depth = record {
  addr = ea;
  func = some (word b'f');
  instruction = some (word b'i');
  kind = code;
  name = none;
  depth = depth;
}

abbrev traced_from_1 : Search
traced_from_1 = record {
  visited = 3 ∷ 2 ∷ 1 ∷ [];
  nodes = node 1 0 ∷ node 2 1 ∷ node 3 1 ∷ [];
  edges =
      record { source = 1; target = 2; kind = code }
      ∷ record { source = 1; target = 3; kind = data_item }
      ∷ record { source = 2; target = 3; kind = code }
      ∷ [];
  depth_reached = 1;
  queue = [];
  pops = 3;
}

trace-runs : trace database forward 1 (pos 5) ≡ whole traced_from_1
unfolding trace nat_eq ℕ_discrete
trace-runs = refl

trace-shortest_example :
    Memᴰ (3, 1) (map place traced_from_1.nodes)
    ↔ (Walk database forward 1 1 3 × (1 ≤ 5) × ((j : ℕ) → Walk database forward 1 j 3 → 1 ≤ j))
unfolding clamp_depth
trace-shortest_example =
    trace-shortest database forward 1 (pos 5) traced_from_1 trace-runs (omega arith) (omega arith) 3
      1

trace-IsCapped_example : IsCapped (trace database forward 1 (pos 5))
trace-IsCapped_example = trace-IsCapped database forward 1 (pos 5)

-- The function at 1 calls those at 2 and 4, 2 calls 3, 3 calls 4 and 4 calls 5; an item is its reference.
abbrev calls_of : ℕ → List ℕ
calls_of ea =
    if ea == 1
    then 2 ∷ 4 ∷ []
    else if ea == 2
    then 3 ∷ []
    else if ea == 3
    then 4 ∷ []
    else if ea == 4
    then 5 ∷ []
    else []

abbrev program : Callgraph.Ida
program = record {
  get_func = λ ea. some (record { start_ea = ea; name = word b'f' });
  func_items = calls_of;
  code_refs = λ item. item ∷ [];
  poll = λ n. none;
}

abbrev limits : Limits
limits = record { max_depth = 3; max_nodes = 9; max_edges = 9; max_edges_per_func = 9 }

abbrev at_depth : ℕ → Callgraph.Node
at_depth d = record { name = word b'f'; depth = d }

-- The depth is that of the first chain of calls that was followed: 4 is called by 1, and stands at
-- depth 3; 5, which a chain of two calls reaches, is missing.
abbrev graph_of_1 : Graph
graph_of_1 = record {
  nodes = (1, at_depth 0) ∷ (2, at_depth 1) ∷ (3, at_depth 2) ∷ (4, at_depth 3) ∷ [];
  edges = (1, 2) ∷ (2, 3) ∷ (3, 4) ∷ (4, 5) ∷ (1, 4) ∷ [];
  visited = 4 ∷ 3 ∷ 2 ∷ 1 ∷ [];
  truncated = false;
  limit_reason = none;
  per_func_capped = false;
  visit_count = 4;
}

collect-runs : collect program limits 1 ≡ ok graph_of_1
unfolding collect nat_eq ℕ_discrete insert
collect-runs = refl

collect-IsReached_example :
    IsReached program limits 1 graph_of_1
    × ((a : ℕ) → out a graph_of_1.edges ≤ limits.max_edges_per_func)
collect-IsReached_example = collect-IsReached program limits 1 graph_of_1 collect-runs

minus_two : int_convert (lit "-2") (pos 0) ≡ formats (minus 2) (254 ∷ []) none
unfolding int_convert lit nat_eq ℕ_discrete parse_int
minus_two = refl

-- 255 needs nine bits with its sign, and is given one byte.
two_five_five : int_convert (lit "255") (pos 0) ≡ too_big 1
unfolding int_convert lit nat_eq ℕ_discrete parse_int
two_five_five = refl

int_convert-from_bytes_example :
    (parse_int (lit "-2") ≡ some (minus 2))
    × (from_bytes (254 ∷ []) ≡ minus 2)
    × (1 ≡ max 1 (size_of (minus 2) (pos 0)))
int_convert-from_bytes_example =
    int_convert-from_bytes (lit "-2") (pos 0) (minus 2) (254 ∷ []) none minus_two

-- Matches at 3 and 7, in a range that ends at 9.
abbrev finds : ℕ → Option ℕ
finds ea = if ltb ea 4 then some 3 else if ltb ea 8 then some 7 else none

finds-IsSearch : IsSearch finds 9
finds-IsSearch ea hit e = elim (Bool-cases (ltb ea 4)) [
  | inl f ↦ let is : 3 ≡ hit = ground (arith, e) in ground (arith, is)
  | inr f ↦ elim (Bool-cases (ltb ea 8)) [
    | inl g ↦ let is : 7 ≡ hit = ground (arith, e) in ground (arith, is)
    | inr g ↦ absurd (ground (arith, e))
  ]
]

not_blank : is_empty (norm_pattern (lit " 90 ")) ≡ false
unfolding norm_pattern lit is_space nat_eq
not_blank = refl

find_bytes-slices_example :
    find_bytes (λ pattern. finds) (lit " 90 ") 0 9 (pos 1) (pos 0)
    ≡ matches
        (take (limit_of (pos 1)) (drop 0 (all_from finds 9 0)))
        (ltb (limit_of (pos 1)) (length (drop 0 (all_from finds 9 0))))
find_bytes-slices_example =
    find_bytes-slices (λ pattern. finds) (lit " 90 ") 0 9 (pos 1) (pos 0) not_blank finds-IsSearch
