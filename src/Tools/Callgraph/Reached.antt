-- ===== src/Tools/Callgraph/Reached.antt =====
-- What a call graph reports is there, near enough, and within the caps.
use mathlib.Core.List.{Memᴰ}
use mathlib.Core.List.Memᴰ
use mathlib.Core.Logic.{⊎_elim}
use mathlib.Core.Option
use ida_mcp.Prelude.{
  ℕ, suc, ◌≤◌, ◌≡◌, refl, ap, sym, inl, inr, some, [], ◌∷◌, arith, length, length-append, nat_eq,
  Bool-cases, ◌==◌,
}
use ida_mcp.Prelude.Dict.{lookup, lookup-insert, length-insert-le}
use ida_mcp.Exec.{Result, ok, err, cancelled, sync_error}
use ida_mcp.Tools.Callgraph.{
  Walked, Ida, Limits, Graph, Node, cut, marked, with_node, linked, traverse, blank, caught,
  collect,
}
use ida_mcp.Tools.Callgraph.Degrees.{out, traverse-IsCapped}
use ida_mcp.Tools.Callgraph.Rounds.{Calls, Chain, here, Keeps, traverse-keeps}

the_end : {s t : Graph} → Path (Result Graph) (ok t) (ok s) → t ≡ s
the_end e = cc e

module _ (ida : Ida) (lim : Limits) (root : ℕ) where
  -- Each node is a function at the end of a chain of calls as long as its depth says, each edge is
  -- a call out of such a function, and the caps hold.
  pub record IsReached (s : Graph) : Type 0 where
    pub few_nodes : length s.nodes ≤ lim.max_nodes
    pub few_edges : length s.edges ≤ lim.max_edges
    pub nodes_reached :
        (a : ℕ) (n : Node)
        → lookup a s.nodes ≡ some n
        → Chain ida root n.depth a × (n.depth ≤ lim.max_depth)
    pub edges_reached :
        (a c : ℕ)
        → Memᴰ (a, c) s.edges
        → (k : ℕ) × Chain ida root k a × (k ≤ lim.max_depth) × Calls ida a c

  same-IsReached : (s t : Graph) → t.nodes ≡ s.nodes → t.edges ≡ s.edges → IsReached s → IsReached t
  same-IsReached s t e f h = record {
    few_nodes = rw e h.few_nodes;
    few_edges = rw f h.few_edges;
    nodes_reached = λ a n m. h.nodes_reached a n (rw e at m);
    edges_reached = λ a c m. h.edges_reached a c (rw f at m);
  }

  IsReached-Keeps : Keeps ida lim root IsReached
  unfolding cut marked with_node linked
  IsReached-Keeps = record {
    cuts = λ why s h. same-IsReached s _ refl refl h;
    caps = λ s h. same-IsReached s _ refl refl h;
    counts = λ s h. same-IsReached s _ refl refl h;
    marks = λ a s new h. same-IsReached s _ refl refl h;
    enters = λ a depth f s walk near is few h.
        let node : Node = record { name = f.name; depth = depth } in
        record {
          few_nodes = omega (arith, few, length-insert-le a node s.nodes);
          few_edges = h.few_edges;
          nodes_reached = λ b n m. elim (Bool-cases (b == a)) [
            | inl e ↦
                let same : node ≡ n =
                  Option.some_inj.0 (ground (arith, lookup-insert b a node s.nodes, m)) in
                let place : b ≡ a = ground arith in rw (place, sym same) (walk, near)
            | inr e ↦ h.nodes_reached b n (ground (arith, lookup-insert b a node s.nodes, m))
          ];
          edges_reached = h.edges_reached;
        };
    links = λ a depth c s walk near call few h. record {
      few_nodes = h.few_nodes;
      few_edges = omega (arith, few, length-append s.edges ((a, c) ∷ []));
      nodes_reached = h.nodes_reached;
      edges_reached = λ b d m.
          ⊎_elim (h.edges_reached b d)
            (λ n.
              let e : Path (ℕ × ℕ) (b, d) (a, c) = Memᴰ.eq_of_singleton n in
              (
                depth,
                rw (ap (λ (q : ℕ × ℕ). q.0) e) walk,
                near,
                rw (ap (λ (q : ℕ × ℕ). q.0) e, ap (λ (q : ℕ × ℕ). q.1) e) call,
              ))
            (Memᴰ.append_cases s.edges m);
    };
  }

  blank-IsReached : IsReached blank
  unfolding blank lookup
  blank-IsReached = record {
    few_nodes = omega arith;
    few_edges = omega arith;
    nodes_reached = λ a n m. absurd (cc m);
    edges_reached = λ a c m. absurd (Memᴰ.not-nil m);
  }

  caught-IsReached : (w : Walked) (s : Graph) → IsReached w.1 → caught w ≡ ok s → IsReached s
  unfolding caught cut
  caught-IsReached (ok u, t) s h e = rw (sym (the_end e)) h
  caught-IsReached (err (cancelled m), t) s h e =
      rw (sym (the_end e)) (same-IsReached t _ refl refl h)
  caught-IsReached (err (sync_error m), t) s h e =
      rw (sym (the_end e)) (same-IsReached t _ refl refl h)
  caught-IsReached (err x, t) s h e = absurd (cc e)

few-caught :
    (cap : ℕ) (w : Walked) (s : Graph)
    → ((a : ℕ) → out a w.1.edges ≤ cap)
    → caught w ≡ ok s
    → (a : ℕ) → out a s.edges ≤ cap
unfolding caught cut
few-caught cap (ok u, t) s h e a =
    let same : t.edges ≡ s.edges = ap (λ (g : Graph). g.edges) (the_end e) in rw (sym same) (h a)
few-caught cap (err (cancelled m), t) s h e a =
    let same : t.edges ≡ s.edges = ap (λ (g : Graph). g.edges) (the_end e) in rw (sym same) (h a)
few-caught cap (err (sync_error m), t) s h e a =
    let same : t.edges ≡ s.edges = ap (λ (g : Graph). g.edges) (the_end e) in rw (sym same) (h a)
few-caught cap (err x, t) s h e a = absurd (cc e)

-- A call graph that is returned is within its caps, that of the edges out of each function included; each
-- node ends a chain of calls from the root that is as long as its depth and at most `max_depth`, and each
-- edge is a call out of such a function.
pub collect-IsReached :
    (ida : Ida) (lim : Limits) (root : ℕ) (s : Graph)
    → collect ida lim root ≡ ok s
    → IsReached ida lim root s × ((a : ℕ) → out a s.edges ≤ lim.max_edges_per_func)
unfolding collect
collect-IsReached ida lim root s e =
    let walked = traverse ida lim (suc lim.max_depth) root 0 blank in
    (
      caught-IsReached ida lim root walked s
          (traverse-keeps ida lim root (IsReached ida lim root) (IsReached-Keeps ida lim root)
            (suc lim.max_depth) root 0 (omega arith) here blank (blank-IsReached ida lim root))
          e,
      few-caught lim.max_edges_per_func walked s
          (traverse-IsCapped ida lim (suc lim.max_depth) root 0).few e,
    )
