-- ===== src/Tools/Trace/Depths.antt =====
-- The search goes outwards by depth: what it keeps while it follows the references of one address.
use mathlib.Core.List.{Memᴰ}
use mathlib.Core.List.Memᴰ
use mathlib.Core.Logic.{⊎_elim}
use ida_mcp.Prelude.{
  ℕ, suc, ◌≤◌, ◌<◌, ◌≡◌, refl, ap, sym, ◌∙◌, ◌⊎◌, inl, inr, true, false, some, List, [], ◌∷◌, ◌++◌,
  map, arith, length, length-append, ◌==◌, contains, nat_eq, All, Bool-cases, leb,
}
use ida_mcp.Tools.Trace.{
  max_trace_nodes, max_trace_edges, Direction, Xref, Ida, Node, Search, xrefs, next_of, edge_of,
  total, enqueue, follow,
}
use ida_mcp.Tools.Trace.Bounds.{queued, linked, enqueue_rule}

abbrev pub place : Node → ℕ × ℕ
place n = (n.addr, n.depth)

-- An address with its depth is reported already, or waits in the queue.
abbrev pub Known : Search → ℕ → ℕ → Type 0
Known s a k = Memᴰ (a, k) (map place s.nodes) ⊎ Memᴰ (a, k) s.queue

-- The queue from the front: each depth is followed by that depth or the next one.
abbrev pub Ordered : List (ℕ × ℕ) → Type 0
Ordered [] = Unit
Ordered (e ∷ q) = All (λ f. (e.1 ≤ f.1) × (f.1 ≤ suc e.1)) q × Ordered q

abbrev pub Around : ℕ → List (ℕ × ℕ) → Type 0
Around d q = All (λ f. (d ≤ f.1) × (f.1 ≤ suc d)) q

Around-snoc :
    (d v k : ℕ) (q : List (ℕ × ℕ)) → d ≤ k → k ≤ suc d → Around d q → Around d (q ++ (v, k) ∷ [])
Around-snoc d v k [] lo hi h = ((lo, hi), tt)
Around-snoc d v k (f ∷ q) lo hi h = (h.0, Around-snoc d v k q lo hi h.1)

Ordered-snoc :
    (d v : ℕ) (q : List (ℕ × ℕ)) → Around d q → Ordered q → Ordered (q ++ (v, suc d) ∷ [])
Ordered-snoc d v [] a h = (tt, tt)
Ordered-snoc d v (f ∷ q) a h = (
  Around-snoc f.1 v (suc d) q (omega (arith, a.0)) (omega (arith, a.0)) h.0,
  Ordered-snoc d v q a.1 h.1,
)

pub Around-mem : (d a k : ℕ) (q : List (ℕ × ℕ)) → Around d q → Memᴰ (a, k) q → (d ≤ k) × (k ≤ suc d)
Around-mem d a k [] h m = absurd (Memᴰ.not-nil m)
Around-mem d a k (f ∷ q) h m =
    ⊎_elim (λ e. omega (arith, h.0, ap (λ (p : ℕ × ℕ). p.1) e)) (Around-mem d a k q h.1)
      (Memᴰ.cases_cons m)

module _ (ida : Ida) (dir : Direction) (source : ℕ) where
  -- The addresses that one reference leads to, as IDA lists them.
  abbrev pub Step : ℕ → ℕ → Type 0
  Step u v = (xs : List Xref) × (xrefs ida dir u ≡ some xs) × Memᴰ v (map (next_of dir) xs)

  -- The walks of a given length from the start.
  pub data Walk : ℕ → ℕ → Type 0 where
    here : Walk 0 source
    step : {k u v : ℕ} → Walk k u → Step u v → Walk (suc k) v

  module _ (max_depth : ℕ) where
    pub record Core (d : ℕ) (s : Search) : Type 0 where
      pub sound : (a k : ℕ) → Known s a k → Walk k a × (k ≤ max_depth)
      pub once : (a j k : ℕ) → Known s a j → Known s a k → j ≡ k
      pub seen : (a : ℕ) → contains s.visited a ≡ true → (k : ℕ) × Known s a k
      pub visited : (a k : ℕ) → Known s a k → contains s.visited a ≡ true
      pub before : (a k : ℕ) → Memᴰ (a, k) (map place s.nodes) → k ≤ d
      pub around : Around d s.queue
      pub ordered : Ordered s.queue

    Known-queued :
        (v k : ℕ) (s : Search) (a j : ℕ)
        → Known (queued v k s) a j
        → Known s a j ⊎ ((a ≡ v) × (j ≡ k))
    Known-queued v k s a j (inl m) = inl (inl m)
    Known-queued v k s a j (inr m) =
        ⊎_elim (λ n. inl (inr n))
          (λ n.
            let e = Memᴰ.eq_of_singleton n in
            inr (ap (λ (p : ℕ × ℕ). p.0) e, ap (λ (p : ℕ × ℕ). p.1) e))
          (Memᴰ.append_cases s.queue m)

    pub Known-grows : (v k : ℕ) (s : Search) (a j : ℕ) → Known s a j → Known (queued v k s) a j
    Known-grows v k s a j (inl m) = inl m
    Known-grows v k s a j (inr m) = inr (Memᴰ.append_left _ m)

    Known-new : (v k : ℕ) (s : Search) → Known (queued v k s) v k
    Known-new v k s = inr (Memᴰ.append_right s.queue (Memᴰ.head refl))

    queued-Core :
        (d v : ℕ) (s : Search)
        → Walk (suc d) v
        → suc d ≤ max_depth
        → contains s.visited v ≡ false
        → Core d s
        → Core d (queued v (suc d) s)
    queued-Core d v s walk near fresh h = record {
      sound = λ a k m.
          ⊎_elim (h.sound a k) (λ (p, q). (rw (p, q) walk, rw q near)) (Known-queued v _ s a k m);
      once = λ a j k m n.
          ⊎_elim
            (λ old.
              ⊎_elim (h.once a j k old) (λ (p, q). absurd (cc (p, fresh, h.visited a j old)))
                (Known-queued v _ s a k n))
            (λ (p, q).
              ⊎_elim (λ old. absurd (cc (p, fresh, h.visited a k old))) (λ (p', q'). q ∙ sym q')
                (Known-queued v _ s a k n))
            (Known-queued v _ s a j m);
      seen = λ a e. elim (Bool-cases (a == v)) [
        | inl same ↦ (suc d, ground (arith, Known-new v (suc d) s))
        | inr other ↦ let (k, m) = h.seen a (ground arith) in (k, Known-grows v _ s a k m)
      ];
      visited = λ a k m.
          ⊎_elim (λ old. ground (arith, h.visited a k old)) (λ (p, q). ground arith)
            (Known-queued v _ s a k m);
      before = h.before;
      around = Around-snoc d v (suc d) s.queue (omega arith) (omega arith) h.around;
      ordered = Ordered-snoc d v s.queue h.around h.ordered;
    }

    pub record Grown (s t : Search) : Type 0 where
      pub known : (a k : ℕ) → Known s a k → Known t a k
      pub more : total s ≤ total t
      pub linked_more : length s.edges ≤ length t.edges
      pub same : t.nodes ≡ s.nodes

    Grown-trans : {s t u : Search} → Grown s t → Grown t u → Grown s u
    Grown-trans g h = record {
      known = λ a k m. h.known a k (g.known a k m);
      more = omega (arith, g.more, h.more);
      linked_more = omega (arith, g.linked_more, h.linked_more);
      same = h.same ∙ g.same;
    }

    -- The caps have turned nothing away yet.
    abbrev pub IsFree : Search → Type 0
    IsFree s = (total s < max_trace_nodes) × (length s.edges < max_trace_edges)

    abbrev pub Found : ℕ → ℕ → Search → Type 0
    Found n v s = (k : ℕ) × (k ≤ n) × Known s v k

    record Offered (d v : ℕ) (s t : Search) : Type 0 where
      core : Core d t
      grown : Grown s t
      found : total s < max_trace_nodes → Found (suc d) v t

    found-before : (d v k : ℕ) (s : Search) → Core d s → Known s v k → k ≤ suc d
    found-before d v k s h (inl m) = omega (arith, h.before v k m)
    found-before d v k s h (inr m) = omega (arith, Around-mem d v k s.queue h.around m)

    offer :
        (d ea : ℕ) (x : Xref) (s : Search)
        → Walk (suc d) (next_of dir x)
        → suc d ≤ max_depth
        → Core d s
        → Offered d (next_of dir x) s (enqueue (next_of dir x) (suc d) (linked dir ea x s))
    unfolding total
    offer d ea x s walk near h =
        enqueue_rule (Offered d v s) v (suc d) s'
          (λ fresh fits. record {
            core = queued-Core d v s' walk near fresh h';
            grown = record {
              known = Known-grows v (suc d) s;
              more = omega (arith, length-append s.queue ((v, suc d) ∷ []));
              linked_more = linked_le;
              same = refl;
            };
            found = λ _. (suc d, omega arith, Known-new v (suc d) s);
          })
          (λ old. record {
            core = h';
            grown = record {
              known = λ a k m. m;
              more = omega arith;
              linked_more = linked_le;
              same = refl;
            };
            found = λ room.
                ⊎_elim (λ e. let (k, m) = h.seen v e in (k, found-before d v k s h m, m))
                  (λ full. absurd (omega arith)) old;
          })
      where
        v : ℕ
        v = next_of dir x

        s' : Search
        s' = linked dir ea x s

        h' : Core d s'
        h' = record {
          sound = h.sound;
          once = h.once;
          seen = h.seen;
          visited = h.visited;
          before = h.before;
          around = h.around;
          ordered = h.ordered;
        }

        linked_le : length s.edges ≤ length s'.edges
        linked_le = omega (arith, length-append s.edges (edge_of dir ea x ∷ []))

    pub record Followed (d : ℕ) (xs : List Xref) (s t : Search) : Type 0 where
      pub core : Core d t
      pub grown : Grown s t
      pub found : IsFree t → (v : ℕ) → Memᴰ v (map (next_of dir) xs) → Found (suc d) v t

    pub follow-Followed :
        (d ea : ℕ) (xs : List Xref) (s : Search)
        → ((v : ℕ) → Memᴰ v (map (next_of dir) xs) → Walk (suc d) v)
        → suc d ≤ max_depth
        → Core d s
        → Followed d xs s (follow dir ea d xs s)
    unfolding follow
    follow-Followed d ea [] s walks near h = record {
      core = h;
      grown = record {
        known = λ a k m. m;
        more = omega arith;
        linked_more = omega arith;
        same = refl;
      };
      found = λ _ v m. absurd (Memᴰ.not-nil m);
    }
    follow-Followed d ea (x ∷ xs) s walks near h =
        elim (Bool-cases (leb max_trace_edges (length s.edges))) [
          | inl e ↦
              rw (e, follow)
                (record {
                  core = h;
                  grown = record {
                    known = λ a k m. m;
                    more = omega arith;
                    linked_more = omega arith;
                    same = refl;
                  };
                  found = λ free. absurd (ground (arith, free.1));
                })
          | inr e ↦
              let v = next_of dir x in
              let first = offer d ea x s (walks v (Memᴰ.head refl)) near h in
              let rest =
                follow-Followed d ea xs (enqueue v (suc d) (linked dir ea x s))
                  (λ w m. walks w (Memᴰ.tail m)) near first.core in
              rw (e, follow)
                (record {
                  core = rest.core;
                  grown = Grown-trans first.grown rest.grown;
                  found = λ free w m.
                      ⊎_elim
                        (λ p.
                          let (k, le, n) =
                            first.found
                              (omega (arith, free.0, first.grown.more, rest.grown.more)) in
                          (k, le, rw p (rest.grown.known v k n)))
                        (rest.found free w) (Memᴰ.cases_cons m);
                })
        ]
