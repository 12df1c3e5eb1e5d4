-- ===== src/Tools/Trace/Bounds.antt =====
-- What one address adds to the search, and that the search stays small and ends.
use mathlib.Core.List.{Memᴰ}
use ida_mcp.Prelude.{
  ℕ, zero, suc, ◌+◌, ◌≤◌, ◌<◌, ◌≡◌, refl, ap, ◌⊎◌, inl, inr, true, false, List, [], ◌∷◌, ◌++◌,
  arith, ltb, leb, length, length-append, Bool-cases, Option-cases, contains, nat_eq, All,
}
use ida_mcp.Prelude.Int.{ℤ}
use ida_mcp.Tools.Trace.{
  max_trace_nodes, max_trace_edges, Direction, Xref, Ida, Search, Outcome, whole, partial,
  out_of_fuel, xrefs, next_of, node_at, edge_of, total, enqueue, follow, follow_some, popped,
  recorded, expand, cancelled_at, loop, clamp_depth, start, trace,
}

-- How the loop ends, where `P` holds of the search with the fuel that is left.
abbrev pub IsEnded : (ℕ → Search → Type 0) → Outcome → Type 0
IsEnded P (whole t) = (fuel : ℕ) × P fuel t × ((t.queue ≡ []) ⊎ (max_trace_nodes ≤ length t.nodes))
IsEnded P (partial t) =
    (fuel : ℕ) × (s : Search) × P fuel s × (t.nodes ≡ s.nodes) × (t.edges ≡ s.edges)
IsEnded P out_of_fuel = (s : Search) × P 0 s × (length s.nodes < max_trace_nodes)

abbrev pub queued : ℕ → ℕ → Search → Search
queued target depth s = record s {
  visited = target ∷ s.visited;
  queue = s.queue ++ (target, depth) ∷ [];
}

abbrev pub linked : Direction → ℕ → Xref → Search → Search
linked dir ea x s = record s { edges = s.edges ++ edge_of dir ea x ∷ [] }

pub queue-cases :
    (q : List (ℕ × ℕ)) → (q ≡ []) ⊎ ((e : ℕ × ℕ) × (rest : List (ℕ × ℕ)) × (q ≡ e ∷ rest))
queue-cases [] = inl refl
queue-cases (e ∷ rest) = inr (e, rest, refl)

pub enqueue_rule {ℓ} :
    (P : Search → Type ℓ) (target depth : ℕ) (s : Search)
    → (contains s.visited target ≡ false → total s < max_trace_nodes → P (queued target depth s))
    → ((contains s.visited target ≡ true) ⊎ (max_trace_nodes ≤ total s) → P s)
    → P (enqueue target depth s)
unfolding enqueue
enqueue_rule P target depth s new old = elim (Bool-cases (contains s.visited target)) [
  | inl e ↦ rw (e, enqueue) (old (inl e))
  | inr e ↦ elim (Bool-cases (ltb (total s) max_trace_nodes)) [
    | inl f ↦ rw (e, f, enqueue) (new e (ground arith))
    | inr f ↦ rw (e, f, enqueue) (old (inr (ground arith)))
  ]
]

module _ (dir : Direction) where
  -- What each reference keeps, the loop over them keeps.
  pub follow_rule {ℓ} :
      (P : Search → Type ℓ) (ea depth : ℕ) (xs : List Xref)
      → ((x : Xref)
          → Memᴰ x xs
          → (s : Search) → length s.edges < max_trace_edges
          → P s
          → P (enqueue (next_of dir x) (suc depth) (linked dir ea x s)))
      → (s : Search) → P s
      → P (follow dir ea depth xs s)
  unfolding follow
  follow_rule P ea depth [] keep s p = p
  follow_rule P ea depth (x ∷ xs) keep s p =
      elim (Bool-cases (leb max_trace_edges (length s.edges))) [
        | inl e ↦ rw e p
        | inr e ↦ rw e (
            follow_rule P ea depth xs (λ y m. keep y (Memᴰ.tail m)) _
              (keep x (Memᴰ.head refl) s (ground arith) p))
      ]

module _ (ida : Ida) (dir : Direction) where
  module _ (max_depth : ℕ) (P : ℕ → Search → Type 0)
      (keep : (fuel : ℕ) (s : Search) (ea depth : ℕ) (rest : List (ℕ × ℕ))
        → s.queue ≡ (ea, depth) ∷ rest
        → length s.nodes < max_trace_nodes
        → P (suc fuel) s
        → P fuel (expand ida dir max_depth ea depth (popped s rest))) where
    pub loop_rule : (fuel : ℕ) (s : Search) → P fuel s → IsEnded P (loop ida dir max_depth fuel s)
    unfolding loop popped
    loop_rule zero s p = elim (queue-cases s.queue) [
      | inl e ↦ rw (e, loop) (0, p, inl e)
      | inr (f, rest, e) ↦ elim (Bool-cases (ltb (length s.nodes) max_trace_nodes)) [
        | inl b ↦ rw (e, b, loop) (s, p, ground arith)
        | inr b ↦ rw (e, b, loop) (0, p, inr (ground arith))
      ]
    ]
    loop_rule (suc fuel) s p = elim (queue-cases s.queue) [
      | inl e ↦ rw (e, loop) (suc fuel, p, inl e)
      | inr (f, rest, e) ↦ elim (Bool-cases (ltb (length s.nodes) max_trace_nodes)) [
        | inr b ↦ rw (e, b, loop) (suc fuel, p, inr (ground arith))
        | inl b ↦ elim (Bool-cases (cancelled_at ida (suc s.pops))) [
          | inl c ↦ rw (e, b, c, loop) (suc fuel, s, p, refl, refl)
          | inr c ↦
              rw (e, b, c, loop) (loop_rule fuel _ (keep fuel s f.0 f.1 rest e (ground arith) p))
        ]
      ]
    ]

-- Every queued address is near enough to be recorded.
abbrev IsNear : ℕ → List (ℕ × ℕ) → Type 0
IsNear max_depth q = All (λ e. e.1 ≤ max_depth) q

IsNear-snoc :
    (max_depth : ℕ) (q : List (ℕ × ℕ)) (ea depth : ℕ)
    → IsNear max_depth q
    → depth ≤ max_depth
    → IsNear max_depth (q ++ (ea, depth) ∷ [])
IsNear-snoc max_depth [] ea depth h p = (p, tt)
IsNear-snoc max_depth (e ∷ q) ea depth h p = (h.0, IsNear-snoc max_depth q ea depth h.1 p)

record IsSmall (max_depth bound : ℕ) (s : Search) : Type 0 where
  near : IsNear max_depth s.queue
  few_edges : length s.edges ≤ max_trace_edges
  room : length s.nodes + length s.queue ≤ max_trace_nodes
  progress : max_trace_nodes ≤ bound + length s.nodes

module _ (ida : Ida) (dir : Direction) (max_depth : ℕ) where
  follow-IsSmall :
      (bound ea depth : ℕ) (xs : List Xref) (s : Search)
      → depth < max_depth
      → IsSmall max_depth bound s
      → IsSmall max_depth bound (follow dir ea depth xs s)
  unfolding total
  follow-IsSmall bound ea depth xs s near =
      follow_rule dir (IsSmall max_depth bound) ea depth xs
        (λ x m t few h.
          let t' = linked dir ea x t in
          let h' : IsSmall max_depth bound t' = record {
            near = h.near;
            few_edges = omega (arith, length-append t.edges (edge_of dir ea x ∷ []));
            room = h.room;
            progress = h.progress;
          } in
          enqueue_rule (IsSmall max_depth bound) (next_of dir x) (suc depth) t'
            (λ new fits. record {
              near = IsNear-snoc max_depth t.queue _ _ h.near near;
              few_edges = h'.few_edges;
              room = omega (arith, length-append t.queue ((next_of dir x, suc depth) ∷ []));
              progress = h.progress;
            })
            (λ _. h'))
        s

  expand-IsSmall :
      (fuel : ℕ) (s : Search) (ea depth : ℕ) (rest : List (ℕ × ℕ))
      → s.queue ≡ (ea, depth) ∷ rest
      → length s.nodes < max_trace_nodes
      → IsSmall max_depth (suc fuel) s
      → IsSmall max_depth fuel (expand ida dir max_depth ea depth (popped s rest))
  unfolding expand follow_some recorded popped
  expand-IsSmall fuel s ea depth rest e few h = elim (Bool-cases (leb max_depth depth)) [
    | inl b ↦ rw (far, b, expand) recorded_small
    | inr b ↦ elim (Option-cases (xrefs ida dir ea)) [
      | inl f ↦ rw (far, b, f, expand) recorded_small
      | inr (xs, f) ↦
          rw (far, b, f, expand) (follow-IsSmall fuel ea depth xs _ (ground arith) recorded_small)
    ]
  ]
    where
      nearby : IsNear max_depth ((ea, depth) ∷ rest)
      nearby = rw e at h.near

      far : ltb max_depth depth ≡ false
      far = ground (arith, nearby.0)

      recorded_small : IsSmall max_depth fuel (recorded ida ea depth (popped s rest))
      recorded_small = record {
        near = nearby.1;
        few_edges = h.few_edges;
        room =
            omega (arith, h.room, length-append s.nodes (node_at ida ea depth ∷ []), ap length e);
        progress = omega (arith, h.progress, length-append s.nodes (node_at ida ea depth ∷ []));
      }

-- What the tool reports: it was not stopped by the fuel, and it is within the caps.
abbrev pub IsCapped : Outcome → Type 0
IsCapped (whole t) = (length t.nodes ≤ max_trace_nodes) × (length t.edges ≤ max_trace_edges)
IsCapped (partial t) = (length t.nodes ≤ max_trace_nodes) × (length t.edges ≤ max_trace_edges)
IsCapped out_of_fuel = ⊥

IsCapped-ended : (max_depth : ℕ) (o : Outcome) → IsEnded (IsSmall max_depth) o → IsCapped o
IsCapped-ended max_depth (whole t) (fuel, h, _) = (omega (arith, h.room), h.few_edges)
IsCapped-ended max_depth (partial t) (fuel, s, h, same, links) =
    (omega (arith, h.room, ap length same), omega (arith, h.few_edges, ap length links))
IsCapped-ended max_depth out_of_fuel (s, h, few) = absurd (omega (arith, h.progress))

-- Tracing ends whatever IDA answers, with at most 200 nodes and 500 edges, cancelled or not.
pub trace-IsCapped :
    (ida : Ida) (dir : Direction) (ea : ℕ) (max_depth : ℤ) → IsCapped (trace ida dir ea max_depth)
unfolding trace start
trace-IsCapped ida dir ea max_depth =
    let deep = clamp_depth max_depth in
    IsCapped-ended deep _ (
      loop_rule ida dir deep (IsSmall deep) (expand-IsSmall ida dir deep) max_trace_nodes (start ea)
        (record {
          near = (omega arith, tt);
          few_edges = omega arith;
          room = omega arith;
          progress = omega arith;
        }))
