-- ===== src/Tools/Callgraph.antt =====
-- The call graph below a root (api_composite.py: _fetch_callgraph_root, callgraph). IDA is a
-- parameter; an address is a number.
pub mod Rounds
pub mod Degrees
pub mod Reached
use ida_mcp.Prelude.{
  ℕ, zero, suc, ◌+◌, ◌-◌, ◌%◌, Bool, true, false, ◌&&◌, ◌||◌, Option, none, some, List, [], ◌∷◌,
  ◌++◌, map, min, max, ltb, leb, length, if◌then◌else◌, ◌==◌, contains, nat_eq, text_eq,
}
use ida_mcp.Prelude.Int.{ℤ, pos, negsuc}
use ida_mcp.Prelude.Dict.{Dict, insert}
use ida_mcp.Text.{Text, lit, strip, split, is_empty}
use ida_mcp.Exec.{Raised, cancelled, sync_error, Result, ok, err, Exec, pure, raise, ◌>>=◌, ◌>>◌}
use ida_mcp.Tools.Limits.{spelled, parse_addr, split_addrs}

abbrev pub Answer : Type 0
Answer = Result Unit

pub record Func : Type 0 where
  pub start_ea : ℕ
  pub name : Text

-- `poll n` is what check_cancelled raises at the n-th address, if anything.
pub record Ida : Type 0 where
  pub get_func : ℕ → Option Func
  pub func_items : ℕ → List ℕ
  pub code_refs : ℕ → List ℕ
  pub poll : ℕ → Option Raised

pub record Limits : Type 0 where
  pub max_depth : ℕ
  pub max_nodes : ℕ
  pub max_edges : ℕ
  pub max_edges_per_func : ℕ

pub record Node : Type 0 where
  pub name : Text
  pub depth : ℕ

pub data Limit : Type 0 where
  by_nodes by_edges by_cancel : Limit

pub record Graph : Type 0 where
  pub nodes : Dict ℕ Node
  pub edges : List (ℕ × ℕ)
  pub visited : List ℕ
  pub truncated : Bool
  pub limit_reason : Option Limit
  pub per_func_capped : Bool
  pub visit_count : ℕ

unfoldable pub cut : Limit → Graph → Graph
cut why s = record s { truncated = true; limit_reason = some why }

-- How a walk comes back: it may have raised.
abbrev pub Walked : Type 0
Walked = Answer × Graph

-- What stops the walk before an address is with_node.
pub data Gate : Type 0 where
  closed full open_for : Gate

unfoldable pub gate_of : Limits → ℕ → Graph → Gate
gate_of lim addr s =
    if s.truncated || contains s.visited addr
    then closed
    else if leb lim.max_nodes (length s.nodes)
    then full
    else open_for

unfoldable pub marked : ℕ → Graph → Graph
marked addr s = record s { visited = addr ∷ s.visited }

unfoldable pub with_node : ℕ → ℕ → Func → Graph → Graph
with_node addr depth f s = record s {
  nodes = insert addr (record { name = f.name; depth = depth }) s.nodes;
}

unfoldable pub linked : ℕ → ℕ → Graph → Graph
linked addr callee s = record s { edges = s.edges ++ (addr, callee) ∷ [] }

-- if visit_count % 64 == 0: check_cancelled()
unfoldable pub polled : Ida → ℕ → Option Raised
polled ida n = if n % 64 == 0 then ida.poll n else none

unfoldable pub blank : Graph
blank = record {
  nodes = [];
  edges = [];
  visited = [];
  truncated = false;
  limit_reason = none;
  per_func_capped = false;
  visit_count = 0;
}

-- except (CancelledError, IDASyncError)
unfoldable pub caught : Walked → Result Graph
unfolding cut
caught (ok _, s) = ok s
caught (err (cancelled t), s) = ok (cut by_cancel s)
caught (err (sync_error t), s) = ok (cut by_cancel s)
caught (err e, s) = err e

module _ (ida : Ida) (lim : Limits) where
  -- The references of one item; `go` is the recursive call. The result is how many edges the
  -- function has had.
  unfoldable pub walk_refs : (ℕ → Exec Graph Unit) → ℕ → ℕ → List ℕ → Exec Graph ℕ
  unfolding cut linked
  walk_refs go addr added [] s = (ok added, s)
  walk_refs go addr added (ref ∷ refs) s = elim s.truncated [
    | true ↦ (ok added, s)
    | false ↦ elim (leb lim.max_edges_per_func added) [
      | true ↦ (ok added, record s { per_func_capped = true })
      | false ↦ elim (ida.get_func ref) [
        | none ↦ walk_refs go addr added refs s
        | some callee ↦ elim (leb lim.max_edges (length s.edges)) [
          | true ↦ (ok added, cut by_edges s)
          | false ↦
              (go callee.start_ea >> walk_refs go addr (suc added) refs)
                (linked addr callee.start_ea s)
        ]
      ]
    ]
  ]

  unfoldable pub walk_items : (ℕ → Exec Graph Unit) → ℕ → ℕ → List ℕ → Exec Graph Unit
  unfolding walk_refs
  walk_items go addr added [] s = (ok tt, s)
  walk_items go addr added (item ∷ items) s = elim s.truncated [
    | true ↦ (ok tt, s)
    | false ↦ (walk_refs go addr added (ida.code_refs item) >>= λ n. walk_items go addr n items) s
  ]

  unfoldable pub visit : (ℕ → Exec Graph Unit) → ℕ → ℕ → Option Func → Exec Graph Unit
  unfolding walk_items with_node
  visit go addr depth none s = (ok tt, s)
  visit go addr depth (some f) s =
      walk_items go addr 0 (ida.func_items f.start_ea) (with_node addr depth f s)

  -- An address that was not visited, while there is room: the count, the poll, the visit.
  unfoldable pub enter : (ℕ → Exec Graph Unit) → ℕ → ℕ → Option Raised → Exec Graph Unit
  unfolding visit marked
  enter go addr depth (some e) s = (err e, record s { visit_count = suc s.visit_count })
  enter go addr depth none s =
      visit go addr depth (ida.get_func addr)
        (marked addr (record s { visit_count = suc s.visit_count }))

  unfoldable pub gated : (ℕ → Exec Graph Unit) → ℕ → ℕ → Gate → Exec Graph Unit
  unfolding enter cut polled
  gated go addr depth closed s = (ok tt, s)
  gated go addr depth full s = (ok tt, cut by_nodes s)
  gated go addr depth open_for s = enter go addr depth (polled ida (suc s.visit_count)) s

  -- traverse. The first argument is max_depth + 1 - depth: at zero the depth is beyond max_depth.
  unfoldable pub traverse : ℕ → ℕ → ℕ → Exec Graph Unit
  unfolding gated gate_of
  traverse zero addr depth s = (ok tt, s)
  traverse (suc left) addr depth s =
      gated (λ callee. traverse left callee (suc depth)) addr depth (gate_of lim addr s) s

  unfoldable pub collect : ℕ → Result Graph
  unfolding traverse blank caught
  collect ea = caught (traverse (suc lim.max_depth) ea 0 blank)

pub data Fetched : Type 0 where
  not_found : Text → Fetched
  graph : Text → Graph → Fetched
  over_budget : Text → Fetched

unfoldable pub rooted : Ida → Limits → Text → ℕ → Option Func → Result Fetched
unfolding collect
rooted ida lim root ea none = ok (not_found root)
rooted ida lim root ea (some f) = elim (collect ida lim ea) [
  | ok s ↦ ok (graph root s)
  | err e ↦ err e
]

-- An address below zero is in no function.
unfoldable pub fetch : Ida → (Text → Option ℕ) → Limits → Text → Result Fetched
unfolding rooted
fetch ida name_ea lim root = elim (parse_addr name_ea (spelled root)) [
  | none ↦ ok (not_found root)
  | some (pos ea) ↦ rooted ida lim root ea (ida.get_func ea)
  | some (negsuc n) ↦ ok (not_found root)
]

-- max(0, int(n)), and min(max(int(n), 1), top)
abbrev pub at_least_zero : ℤ → ℕ
at_least_zero (pos n) = n
at_least_zero (negsuc n) = 0

abbrev pub between : ℤ → ℕ → ℕ
between (pos n) top = min (max n 1) top
between (negsuc n) top = min 1 top

unfoldable pub clamp : ℤ → ℤ → ℤ → ℤ → Limits
clamp max_depth max_nodes max_edges max_edges_per_func = record {
  max_depth = at_least_zero max_depth;
  max_nodes = between max_nodes 100000;
  max_edges = between max_edges 200000;
  max_edges_per_func = between max_edges_per_func 5000;
}

-- One root after the other. `late i` is whether the budget of the call is spent before the i-th root.
unfoldable pub fetch_all :
    Ida → (Text → Option ℕ) → Limits → (ℕ → Bool) → ℕ → List Text → Result (List Fetched)
unfolding fetch
fetch_all ida name_ea lim late i [] = ok []
fetch_all ida name_ea lim late i (root ∷ roots) =
    let first = if late i then ok (over_budget root) else fetch ida name_ea lim root in
    let rest = fetch_all ida name_ea lim late (suc i) roots in
    elim first [ err e ↦ err e | ok g ↦ elim rest [ err e ↦ err e | ok gs ↦ ok (g ∷ gs) ] ]

-- callgraph. The roots are a comma-separated text.
unfoldable pub callgraph :
    Ida → (Text → Option ℕ) → (ℕ → Bool) → Text → ℤ → ℤ → ℤ → ℤ → Result (List Fetched)
unfolding fetch_all clamp
callgraph ida name_ea late roots max_depth max_nodes max_edges max_edges_per_func =
    fetch_all ida name_ea (clamp max_depth max_nodes max_edges max_edges_per_func) late 0
      (split_addrs roots)
