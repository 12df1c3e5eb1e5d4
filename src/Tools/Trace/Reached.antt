-- ===== src/Tools/Trace/Reached.antt =====
-- Which addresses a trace reports, where its caps turned nothing away.
use mathlib.Core.List.{Memᴰ}
use mathlib.Core.List.Memᴰ
use mathlib.Core.Logic.{⊎_elim}
use mathlib.Core.Option
use mathlib.Core.Path.{subst}
use ida_mcp.Prelude.{
  ℕ, suc, ◌≤◌, ◌<◌, ◌≡◌, refl, ap, sym, ◌∙◌, ◌↔◌, ◌⊎◌, inl, inr, false, some, List, [], ◌∷◌, ◌++◌,
  map, arith, length, length-append, nat_eq, Bool-cases, Option-cases, leb, ltb, ltb→lt,
}
use ida_mcp.Prelude.Int.{ℤ}
use ida_mcp.Tools.Trace.{
  max_trace_nodes, max_trace_edges, Direction, Xref, Ida, Node, Search, whole, xrefs, node_at,
  total, popped, recorded, expand, follow, follow_some, clamp_depth, start, trace,
}
use ida_mcp.Tools.Trace.Bounds.{IsEnded, loop_rule}
use ida_mcp.Tools.Trace.Depths.{
  place, Known, Walk, Step, Core, IsFree, Found, follow-Followed, Ordered, Around-mem, here, step,
}

mem-concat :
    (ns : List Node) (n : Node) (p : ℕ × ℕ)
    → Memᴰ p (map place (ns ++ n ∷ []))
    → Memᴰ p (map place ns) ⊎ (p ≡ place n)
mem-concat [] n p m = inr (Memᴰ.eq_of_singleton m)
mem-concat (x ∷ ns) n p m =
    ⊎_elim (λ e. inl (Memᴰ.head e)) (λ r. ⊎_elim (λ q. inl (Memᴰ.tail q)) inr (mem-concat ns n p r))
      (Memᴰ.cases_cons m)

mem-concat_old :
    (ns : List Node) (n : Node) (p : ℕ × ℕ)
    → Memᴰ p (map place ns)
    → Memᴰ p (map place (ns ++ n ∷ []))
mem-concat_old [] n p m = absurd (Memᴰ.not-nil m)
mem-concat_old (x ∷ ns) n p m =
    ⊎_elim Memᴰ.head (λ r. Memᴰ.tail (mem-concat_old ns n p r)) (Memᴰ.cases_cons m)

mem-concat_new : (ns : List Node) (n : Node) → Memᴰ (place n) (map place (ns ++ n ∷ []))
mem-concat_new [] n = Memᴰ.head refl
mem-concat_new (x ∷ ns) n = Memᴰ.tail (mem-concat_new ns n)

module _ (ida : Ida) (dir : Direction) (source max_depth : ℕ) where
  -- Between two rounds: what was reported within the depth has its references found.
  record Inv (s : Search) : Type 0 where
    level : ℕ
    core : Core ida dir source max_depth level s
    origin : Known s source 0
    closed :
        IsFree ida dir source max_depth s
        → (u k : ℕ) → Memᴰ (u, k) (map place s.nodes)
        → k < max_depth
        → (v : ℕ) → Step ida dir source u v
        → Found ida dir source max_depth (suc k) v s

  module _ (s : Search) (u k : ℕ) (rest : List (ℕ × ℕ)) (e : s.queue ≡ (u, k) ∷ rest)
      (h : Inv s) where
    abbrev next : Search
    next = recorded ida u k (popped s rest)

    Known-next : (a j : ℕ) → Known next a j → Known s a j
    unfolding recorded popped node_at
    Known-next a j (inl m) =
        ⊎_elim inl (λ p. inr (rw e (Memᴰ.head p))) (mem-concat s.nodes (node_at ida u k) (a, j) m)
    Known-next a j (inr m) = inr (rw e (Memᴰ.tail m))

    next-Known : (a j : ℕ) → Known s a j → Known next a j
    unfolding recorded popped node_at
    next-Known a j (inl m) = inl (mem-concat_old s.nodes (node_at ida u k) (a, j) m)
    next-Known a j (inr m) =
        ⊎_elim (λ p. inl (Memᴰ.cast p (mem-concat_new s.nodes (node_at ida u k)))) inr
          (Memᴰ.cases_cons (rw e at m))

    Ordered-queue : Ordered ((u, k) ∷ rest)
    Ordered-queue = rw e at h.core.ordered

    level-le : h.level ≤ k
    level-le = (Around-mem h.level u k s.queue h.core.around (rw e (Memᴰ.head refl))).0

    next-Core : Core ida dir source max_depth k next
    next-Core = record {
      sound = λ a j m. h.core.sound a j (Known-next a j m);
      once = λ a i j m n. h.core.once a i j (Known-next a i m) (Known-next a j n);
      seen =
          λ a m. let (j, n) = h.core.seen a (unfold recorded popped in m) in (j, next-Known a j n);
      visited = λ a j m. unfold recorded popped in h.core.visited a j (Known-next a j m);
      before = λ a j m.
          unfold recorded popped node_at in
          ⊎_elim (λ old. omega (arith, level-le, h.core.before a j old))
            (λ p. omega (arith, ap (λ (q : ℕ × ℕ). q.1) p))
            (mem-concat s.nodes (node_at ida u k) (a, j) m);
      around = unfold recorded popped in Ordered-queue.0;
      ordered = unfold recorded popped in Ordered-queue.1;
    }

    total-next : total next ≡ total s
    unfolding total recorded popped
    total-next = omega (arith, ap length e, length-append s.nodes (node_at ida u k ∷ []))

    -- What was closed before stays closed in any search that knows more, and the address of this
    -- round is closed if its own references are found.
    next-closed :
        (t : Search)
        → ((a j : ℕ) → Known next a j → Known t a j)
        → IsFree ida dir source max_depth next
        → (k < max_depth
            → (v : ℕ) → Step ida dir source u v
            → Found ida dir source max_depth (suc k) v t)
        → (w j : ℕ) → Memᴰ (w, j) (map place next.nodes)
        → j < max_depth
        → (v : ℕ) → Step ida dir source w v
        → Found ida dir source max_depth (suc j) v t
    unfolding recorded popped node_at
    next-closed t lifts free own w j m near v st =
        ⊎_elim
          (λ old.
            let (i, le, n) =
              h.closed (omega (arith, total-next, free.0), free.1) w j old near v st in
            (i, le, lifts v i (next-Known v i n)))
          (λ p.
            let pu = ap (λ (q : ℕ × ℕ). q.0) p in
            let pk = ap (λ (q : ℕ × ℕ). q.1) p in rw pk (own (rw pk at near) v (rw pu at st)))
          (mem-concat s.nodes (node_at ida u k) (w, j) m)

    next-Inv : (k < max_depth → (v : ℕ) → Step ida dir source u v → ⊥) → Inv next
    next-Inv none_own = record {
      level = k;
      core = next-Core;
      origin = next-Known source 0 h.origin;
      closed =
          λ free. next-closed next (λ a j m. m) free (λ near v st. absurd (none_own near v st));
    }

    followed-Inv :
        (xs : List Xref) → xrefs ida dir u ≡ some xs → k < max_depth → Inv (follow dir u k xs next)
    followed-Inv xs is near =
        let walk = (h.core.sound u k (inr (rw e (Memᴰ.head refl)))).0 in
        let f =
          follow-Followed ida dir source max_depth k u xs next (λ v m. Walk.step walk (xs, is, m))
            near next-Core in
        record {
          level = k;
          core = f.core;
          origin = f.grown.known source 0 (next-Known source 0 h.origin);
          closed = λ free w j m.
              next-closed (follow dir u k xs next) f.grown.known
                (omega (arith, f.grown.more, free.0), omega (arith, f.grown.linked_more, free.1))
                (λ _ v (ys, is', n). f.found free v (rw (Option.some_inj.0 (sym is ∙ is')) n)) w j
                (rw f.grown.same at m);
        }

  expand-Inv :
      (fuel : ℕ) (s : Search) (u k : ℕ) (rest : List (ℕ × ℕ))
      → s.queue ≡ (u, k) ∷ rest
      → length s.nodes < max_trace_nodes
      → Inv s
      → Inv (expand ida dir max_depth u k (popped s rest))
  unfolding expand follow_some
  expand-Inv fuel s u k rest e few h =
      let near = (h.core.sound u k (inr (rw e (Memᴰ.head refl)))).1 in
      let close : ltb max_depth k ≡ false = ground arith in
      elim (Bool-cases (leb max_depth k)) [
        | inl b ↦ rw (close, b, expand) (next-Inv s u k rest e h (λ lt v st. absurd (ground arith)))
        | inr b ↦ elim (Option-cases (xrefs ida dir u)) [
          | inl f ↦
              rw (close, b, f, expand)
                (next-Inv s u k rest e h (λ lt v (ys, is, n). absurd (cc (f, is))))
          | inr (xs, f) ↦ rw (close, b, f, expand) (followed-Inv s u k rest e h xs f (ground arith))
        ]
      ]

  start-Inv : Inv (start source)
  unfolding start
  start-Inv = record {
    level = 0;
    core = record {
      sound = λ a k m.
          ⊎_elim (λ n. absurd (Memᴰ.not-nil n))
            (λ n.
              let e = Memᴰ.eq_of_singleton n in
              let pa : a ≡ source = ap (λ (q : ℕ × ℕ). q.0) e in
              let pk : k ≡ 0 = ap (λ (q : ℕ × ℕ). q.1) e in (rw (pa, pk) Walk.here, omega arith))
            m;
      once = λ a j k m n. ap (λ (q : ℕ × ℕ). q.1) (only a j m ∙ sym (only a k n));
      seen = λ a m. (0, inr (Memᴰ.head (ground arith)));
      visited = λ a k m. let e = ap (λ (q : ℕ × ℕ). q.0) (only a k m) in ground arith;
      before = λ a k m. absurd (Memᴰ.not-nil m);
      around = (omega arith, tt);
      ordered = (tt, tt);
    };
    origin = inr (Memᴰ.head refl);
    closed = λ free u k m. absurd (Memᴰ.not-nil m);
  }
    where
      only : (a k : ℕ) → Known (start source) a k → Path (ℕ × ℕ) (a, k) (source, 0)
      only a k m = ⊎_elim (λ n. absurd (Memᴰ.not-nil n)) Memᴰ.eq_of_singleton m

  module _ (t : Search) (h : Inv t) (done : t.queue ≡ []) (few : length t.nodes < max_trace_nodes)
      (few_edges : length t.edges < max_trace_edges) where
    reported : (a k : ℕ) → Known t a k → Memᴰ (a, k) (map place t.nodes)
    reported a k (inl m) = m
    reported a k (inr m) = absurd (Memᴰ.not-nil (rw done at m))

    -- Every walk within the depth ends at an address that is reported no deeper.
    walk-Found :
        {k a : ℕ} → Walk ida dir source k a → k ≤ max_depth → Found ida dir source max_depth k a t
    walk-Found here near = (0, omega arith, h.origin)
    walk-Found (step {k} {u} {v} w st) near =
        let (j, le, m) = walk-Found w (omega arith) in
        let free : IsFree ida dir source max_depth t =
          unfold total in (omega (arith, ap length done), few_edges) in
        let (i, le', n) = h.closed free u j (reported u j m) (omega arith) v st in
        (i, omega arith, n)

-- A whole trace within its caps reports exactly the addresses that a walk of at most `max_depth`
-- references reaches, each at the length of its shortest walk.
pub trace-shortest :
    (ida : Ida) (dir : Direction) (source : ℕ) (max_depth : ℤ) (t : Search)
    → trace ida dir source max_depth ≡ whole t
    → length t.nodes < max_trace_nodes
    → length t.edges < max_trace_edges
    → (a k : ℕ)
    → Memᴰ (a, k) (map place t.nodes) ↔ (
        Walk ida dir source k a
        × (k ≤ clamp_depth max_depth)
        × ((j : ℕ) → Walk ida dir source j a → k ≤ j))
unfolding trace
trace-shortest ida dir source max_depth t e few few_edges a k =
    let (_, h, stop) : IsEnded (λ _. Inv ida dir source deep) (whole t) =
      subst (IsEnded (λ _. Inv ida dir source deep)) e (
        loop_rule ida dir deep (λ _. Inv ida dir source deep) (expand-Inv ida dir source deep)
          max_trace_nodes (start source) (start-Inv ida dir source deep)) in
    let done = ⊎_elim (λ q. q) (λ full. absurd (omega arith)) stop in
    let found : (j : ℕ) → Walk ida dir source j a → j ≤ deep → Found ida dir source deep j a t =
      λ j w. walk-Found ida dir source deep t h done few few_edges w in
    (
      λ m.
          let (walk, near) = h.core.sound a k (inl m) in
          (
            walk,
            near,
            λ j w. elim (Bool-cases (ltb j k)) [
              | inr far ↦ ground arith
              | inl short ↦
                  let (i, le, n) = found j w (ground arith) in
                  omega (arith, h.core.once a i k n (inl m), ltb→lt j k short)
            ],
          ),
      λ (walk, near, least).
          let (i, le, n) = found k walk near in
          let (shortest, _) = h.core.sound a i n in
          let same : i ≡ k = omega (arith, least i shortest) in
          rw (sym same) (reported ida dir source deep t h done few few_edges a i n),
    )
  where
    deep : ℕ
    deep = clamp_depth max_depth
