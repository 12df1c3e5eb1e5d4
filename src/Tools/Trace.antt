-- ===== src/Tools/Trace.antt =====
-- Following references over several hops (api_composite.py: trace_data_flow). IDA is a parameter; an
-- address is a number.
pub mod Bounds
pub mod Depths
pub mod Reached
use ida_mcp.Prelude.{
  ℕ, zero, suc, ◌+◌, ◌%◌, Bool, true, false, not, ◌&&◌, ◌||◌, Option, none, some, List, [], ◌∷◌,
  ◌++◌, min, max, ltb, leb, length, if◌then◌else◌, ◌==◌, contains, nat_eq, text_eq,
}
use ida_mcp.Prelude.Int.{ℤ, pos, negsuc}
use ida_mcp.Text.{Text, lit, is_empty}
use ida_mcp.Tools.Limits.{Address, parse_addr}

abbrev pub max_trace_nodes : ℕ
max_trace_nodes = 200

abbrev pub max_trace_edges : ℕ
max_trace_edges = 500

pub data Direction : Type 0 where
  forward backward : Direction

pub record Xref : Type 0 where
  pub frm : ℕ
  pub to : ℕ
  pub iscode : Bool

-- What the tool asks of IDA. none: the call raised. `poll n` is whether check_cancelled raises at
-- the n-th address.
pub record Ida : Type 0 where
  pub get_func : ℕ → Bool
  pub get_func_name : ℕ → Text
  pub is_loaded : ℕ → Bool
  pub get_disasm : ℕ → Option Text
  pub get_name : ℕ → Option Text
  pub xrefs_from : ℕ → Option (List Xref)
  pub xrefs_to : ℕ → Option (List Xref)
  pub poll : ℕ → Bool

pub data Kind : Type 0 where
  code data_item : Kind

pub record Node : Type 0 where
  pub addr : ℕ
  pub func : Option Text
  pub instruction : Option Text
  pub kind : Kind
  pub name : Option Text
  pub depth : ℕ

pub record Edge : Type 0 where
  pub source : ℕ
  pub target : ℕ
  pub kind : Kind

pub record Search : Type 0 where
  pub visited : List ℕ
  pub nodes : List Node
  pub edges : List Edge
  pub depth_reached : ℕ
  pub queue : List (ℕ × ℕ)
  pub pops : ℕ

pub data Outcome : Type 0 where
  whole : Search → Outcome
  partial : Search → Outcome
  out_of_fuel : Outcome

-- `x or None`, of a text
unfoldable pub or_none : Text → Option Text
or_none t = if is_empty t then none else some t

unfoldable pub nonempty : Option Text → Option Text
unfolding or_none
nonempty none = none
nonempty (some t) = or_none t

unfoldable pub kind_of : Bool → Kind
kind_of iscode = if iscode then code else data_item

unfoldable pub next_of : Direction → Xref → ℕ
next_of forward x = x.to
next_of backward x = x.frm

-- edges.append(...): towards the data flow, whichever way it is followed
unfoldable pub edge_of : Direction → ℕ → Xref → Edge
unfolding kind_of
edge_of forward ea x = record { source = ea; target = x.to; kind = kind_of x.iscode }
edge_of backward ea x = record { source = x.frm; target = ea; kind = kind_of x.iscode }

unfoldable pub total : Search → ℕ
total s = length s.nodes + length s.queue

-- A target that was not seen is queued, while there is room.
unfoldable pub enqueue : ℕ → ℕ → Search → Search
unfolding total
enqueue target depth s =
    if not (contains s.visited target) && ltb (total s) max_trace_nodes
    then record s { visited = target ∷ s.visited; queue = s.queue ++ (target, depth) ∷ [] }
    else s

-- The loop over the references of one address.
unfoldable pub follow : Direction → ℕ → ℕ → List Xref → Search → Search
unfolding enqueue edge_of next_of
follow dir ea depth [] s = s
follow dir ea depth (x ∷ xs) s =
    let added = record s { edges = s.edges ++ edge_of dir ea x ∷ [] } in
    let more = follow dir ea depth xs (enqueue (next_of dir x) (suc depth) added) in
    if leb max_trace_edges (length s.edges) then s else more

unfoldable pub follow_some : Direction → ℕ → ℕ → Option (List Xref) → Search → Search
unfolding follow
follow_some dir ea depth none s = s
follow_some dir ea depth (some xs) s = follow dir ea depth xs s

unfoldable pub popped : Search → List (ℕ × ℕ) → Search
popped s rest = record s { queue = rest; pops = suc s.pops }

-- max(1, min(int(max_depth), 20))
unfoldable pub clamp_depth : ℤ → ℕ
clamp_depth (pos n) = max 1 (min n 20)
clamp_depth (negsuc n) = 1

unfoldable pub start : ℕ → Search
start ea = record {
  visited = ea ∷ [];
  nodes = [];
  edges = [];
  depth_reached = 0;
  queue = (ea, 0) ∷ [];
  pops = 0;
}

module _ (ida : Ida) where
  unfoldable pub xrefs : Direction → ℕ → Option (List Xref)
  xrefs forward ea = ida.xrefs_from ea
  xrefs backward ea = ida.xrefs_to ea

  unfoldable pub node_at : ℕ → ℕ → Node
  unfolding nonempty kind_of
  node_at ea depth = record {
    addr = ea;
    func = if ida.get_func ea then some (ida.get_func_name ea) else none;
    instruction = if ida.is_loaded ea then ida.get_disasm ea else none;
    kind = kind_of (ida.get_func ea || not (ida.is_loaded ea));
    name = nonempty (ida.get_name ea);
    depth = depth;
  }

  unfoldable pub recorded : ℕ → ℕ → Search → Search
  unfolding node_at
  recorded ea depth s = record s {
    nodes = s.nodes ++ node_at ea depth ∷ [];
    depth_reached = max s.depth_reached depth;
  }

  -- What is done with an address that was popped.
  unfoldable pub expand : Direction → ℕ → ℕ → ℕ → Search → Search
  unfolding follow_some recorded xrefs
  expand dir max_depth ea depth s =
      let s' = recorded ea depth s in
      let followed = follow_some dir ea depth (xrefs dir ea) s' in
      if ltb max_depth depth then s else if leb max_depth depth then s' else followed

  unfoldable pub cancelled_at : ℕ → Bool
  cancelled_at pops = pops % 32 == 0 && ida.poll pops

  unfoldable pub loop : Direction → ℕ → ℕ → Search → Outcome
  unfolding expand popped cancelled_at
  loop dir max_depth zero s = elim s.queue [
    | [] ↦ whole s
    | _ ∷ _ ↦ if ltb (length s.nodes) max_trace_nodes then out_of_fuel else whole s
  ]
  loop dir max_depth (suc fuel) s = elim s.queue [
    | [] ↦ whole s
    | (ea, depth) ∷ rest ↦
        let s' = popped s rest in
        let more = loop dir max_depth fuel (expand dir max_depth ea depth s') in
        if ltb (length s.nodes) max_trace_nodes
        then (if cancelled_at s'.pops then partial s' else more)
        else whole s
  ]

  -- Each round that goes on records an address, so this fuel is enough.
  unfoldable pub trace : Direction → ℕ → ℤ → Outcome
  unfolding loop start clamp_depth
  trace dir ea max_depth = loop dir (clamp_depth max_depth) max_trace_nodes (start ea)

pub data Traced : Type 0 where
  bad_direction bad_address : Traced
  traced : Outcome → Traced

unfoldable pub direction_of : Text → Option Direction
direction_of t =
    if t == lit "forward" then some forward else if t == lit "backward" then some backward else none

trace_from : Ida → Direction → Option ℤ → ℤ → Traced
unfolding trace
trace_from ida dir none max_depth = bad_address
trace_from ida dir (some (pos ea)) max_depth = traced (trace ida dir ea max_depth)
trace_from ida dir (some (negsuc n)) max_depth = bad_address

-- An address below zero, which parse_addr lets through, is no address of IDA's.
unfoldable pub trace_data_flow : Ida → (Text → Option ℕ) → Address → Text → ℤ → Traced
unfolding trace_from direction_of
trace_data_flow ida name_ea address direction max_depth = elim (direction_of direction) [
  | none ↦ bad_direction
  | some dir ↦ trace_from ida dir (parse_addr name_ea address) max_depth
]
