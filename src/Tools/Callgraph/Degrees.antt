-- ===== src/Tools/Callgraph/Degrees.antt =====
-- How many edges leave a function in a call graph.
use ida_mcp.Prelude.{
  ℕ, zero, suc, ◌≤◌, ◌<◌, ◌≡◌, refl, sym, ap, ◌∙◌, inl, inr, true, false, ◌||◌, Option, none, some,
  List, [], ◌∷◌, ◌++◌, arith, leb, length, contains, nat_eq, Bool-cases, Option-cases, ◌==◌,
  if◌then◌else◌,
}
use ida_mcp.Exec.{Raised, Result, ok, err, Exec, continue}
use ida_mcp.Tools.Callgraph.{
  Func, Ida, Limits, Graph, cut, gate_of, marked, with_node, linked, polled, walk_refs, walk_items,
  visit, enter, gated, traverse, blank,
}

-- The edges out of `a`.
abbrev pub out : ℕ → List (ℕ × ℕ) → ℕ
out a [] = 0
out a ((b, c) ∷ es) = if b == a then suc (out a es) else out a es

out-append :
    (a b c : ℕ) (es : List (ℕ × ℕ))
    → out a (es ++ (b, c) ∷ []) ≡ (if b == a then suc (out a es) else out a es)
out-append a b c [] = refl
out-append a b c ((d, e) ∷ es) = ground (arith, out-append a b c es)

module _ (ida : Ida) (lim : Limits) where
  -- No function has more edges than its cap, and one that was not visited has none.
  pub record IsCapped (s : Graph) : Type 0 where
    pub few : (b : ℕ) → out b s.edges ≤ lim.max_edges_per_func
    pub none_yet : (b : ℕ) → contains s.visited b ≡ false → out b s.edges ≡ 0

  -- What was visited stays so, and its edges are there already.
  record IsLater (s t : Graph) : Type 0 where
    stays : (b : ℕ) → contains s.visited b ≡ true → contains t.visited b ≡ true
    same : (b : ℕ) → contains s.visited b ≡ true → out b t.edges ≡ out b s.edges

  abbrev Keeps : Exec Graph Unit → Type 0
  Keeps m = (s : Graph) → IsCapped s → IsCapped (m s).1 × IsLater s (m s).1

  -- While `a` is walked from the state `first`: it has n edges so far.
  module _ (first : Graph) (a : ℕ) where
    record IsWalking (n : ℕ) (s : Graph) : Type 0 where
      capped : IsCapped s
      seen : contains s.visited a ≡ true
      has : out a s.edges ≡ n
      others_stay :
          (b : ℕ) → a == b ≡ false → contains first.visited b ≡ true → contains s.visited b ≡ true
      others_same :
          (b : ℕ)
          → a == b ≡ false
          → contains first.visited b ≡ true
          → out b s.edges ≡ out b first.edges

    IsWalking-same :
        (n : ℕ) (s t : Graph)
        → t.edges ≡ s.edges
        → t.visited ≡ s.visited
        → IsWalking n s
        → IsWalking n t
    IsWalking-same n s t e v h = record {
      capped = record {
        few = λ b. rw e (h.capped.few b);
        none_yet = λ b new. rw e (h.capped.none_yet b (rw v at new));
      };
      seen = rw v h.seen;
      has = rw e h.has;
      others_stay = λ b o f. rw v (h.others_stay b o f);
      others_same = λ b o f. rw e (h.others_same b o f);
    }

    IsWalking-later :
        (n : ℕ) (s t : Graph) → IsWalking n s → IsCapped t → IsLater s t → IsWalking n t
    IsWalking-later n s t h c l = record {
      capped = c;
      seen = l.stays a h.seen;
      has = l.same a h.seen ∙ h.has;
      others_stay = λ b o f. l.stays b (h.others_stay b o f);
      others_same = λ b o f. l.same b (h.others_stay b o f) ∙ h.others_same b o f;
    }

    IsWalking-linked :
        (n c : ℕ) (s : Graph)
        → IsWalking n s
        → n < lim.max_edges_per_func
        → IsWalking (suc n) (linked a c s)
    unfolding linked
    IsWalking-linked n c s h room = record {
      capped = record {
        few = λ b. ground (arith, out-append b a c s.edges, h.capped.few b, h.has, room);
        none_yet =
            λ b new. ground (arith, out-append b a c s.edges, h.capped.none_yet b new, h.seen, new);
      };
      seen = h.seen;
      has = ground (arith, out-append a a c s.edges, h.has);
      others_stay = h.others_stay;
      others_same = λ b o f. rw (out-append b a c s.edges, o) (h.others_same b o f);
    }

    -- How a walk over references comes back.
    abbrev WalkEnd : Result ℕ × Graph → Type 0
    WalkEnd (ok n, t) = IsWalking n t
    WalkEnd (err e, t) = (n : ℕ) × IsWalking n t

    module _ (go : ℕ → Exec Graph Unit) (keeps : (c : ℕ) → Keeps (go c)) where
      onward-walks :
          (r : Result Unit) (n : ℕ) (rest : Exec Graph ℕ) (t : Graph)
          → IsWalking n t
          → (IsWalking n t → WalkEnd (rest t))
          → WalkEnd (continue r (λ _. rest) t)
      onward-walks (ok u) n rest t h then_ = then_ h
      onward-walks (err e) n rest t h then_ = (n, h)

      refs-walk :
          (refs : List ℕ) (added : ℕ) (s : Graph)
          → IsWalking added s
          → WalkEnd (walk_refs ida lim go a added refs s)
      unfolding walk_refs cut
      refs-walk [] added s h = h
      refs-walk (r ∷ refs) added s h = elim (Bool-cases s.truncated) [
        | inl e ↦ rw (e, walk_refs) h
        | inr e ↦ elim (Bool-cases (leb lim.max_edges_per_func added)) [
          | inl f ↦ rw (e, f, walk_refs) (IsWalking-same added s _ refl refl h)
          | inr f ↦ elim (Option-cases (ida.get_func r)) [
            | inl g ↦ rw (e, f, g, walk_refs) (refs-walk refs added s h)
            | inr (callee, g) ↦ elim (Bool-cases (leb lim.max_edges (length s.edges))) [
              | inl k ↦ rw (e, f, g, k, walk_refs) (IsWalking-same added s _ refl refl h)
              | inr k ↦
                  let s' = linked a callee.start_ea s in
                  let h' = IsWalking-linked added callee.start_ea s h (ground (arith, f)) in
                  let (c, l) = keeps callee.start_ea s' h'.capped in
                  rw (e, f, g, k, walk_refs)
                    (onward-walks (go callee.start_ea s').0 (suc added)
                      (walk_refs ida lim go a (suc added) refs) (go callee.start_ea s').1
                      (IsWalking-later (suc added) s' (go callee.start_ea s').1 h' c l)
                      (refs-walk refs (suc added) (go callee.start_ea s').1))
            ]
          ]
        ]
      ]

      next-walks :
          (rest : ℕ → Exec Graph Unit)
          → ((n : ℕ) (t : Graph) → IsWalking n t → (m : ℕ) × IsWalking m (rest n t).1)
          → (r : Result ℕ) (t : Graph) → WalkEnd (r, t)
          → (m : ℕ) × IsWalking m (continue r rest t).1
      next-walks rest then_ (ok n) t k = then_ n t k
      next-walks rest then_ (err x) t (n, k) = (n, k)

      items-walk :
          (items : List ℕ) (added : ℕ) (s : Graph)
          → IsWalking added s
          → (n : ℕ) × IsWalking n (walk_items ida lim go a added items s).1
      unfolding walk_items
      items-walk [] added s h = (added, h)
      items-walk (item ∷ items) added s h = elim (Bool-cases s.truncated) [
        | inl e ↦ rw (e, walk_items) (added, h)
        | inr e ↦
            let end = walk_refs ida lim go a added (ida.code_refs item) s in
            rw (e, walk_items)
              (next-walks (λ n. walk_items ida lim go a n items) (λ n t k. items-walk items n t k)
                end.0 end.1 (refs-walk (ida.code_refs item) added s h))
      ]

  IsLater-refl : (s t : Graph) → t.edges ≡ s.edges → t.visited ≡ s.visited → IsLater s t
  IsLater-refl s t e v = record { stays = λ b h. rw v h; same = λ b h. ap (out b) e }

  IsCapped-same :
      (s t : Graph) → t.edges ≡ s.edges → t.visited ≡ s.visited → IsCapped s → IsCapped t
  IsCapped-same s t e v h = record {
    few = λ b. rw e (h.few b);
    none_yet = λ b new. rw e (h.none_yet b (rw v at new));
  }

  -- The walk of a function begins without edges.
  begins-walk :
      (a depth : ℕ) (f : Func) (s : Graph)
      → contains s.visited a ≡ false
      → IsCapped s
      → IsWalking s a 0
          (with_node a depth f (marked a (record s { visit_count = suc s.visit_count })))
  unfolding with_node marked
  begins-walk a depth f s new h = record {
    capped = record { few = h.few; none_yet = λ b n. h.none_yet b (ground (arith, n)) };
    seen = ground arith;
    has = h.none_yet a new;
    others_stay = λ b o v. ground (arith, v);
    others_same = λ b o v. refl;
  }

  -- ... and ends within the cap, with what was there before.
  ends-walk :
      (a n : ℕ) (s t : Graph)
      → contains s.visited a ≡ false
      → IsWalking s a n t
      → IsCapped t × IsLater s t
  ends-walk a n s t new h = (
    h.capped,
    record {
      stays = λ b v. h.others_stay b (other b v) v;
      same = λ b v. h.others_same b (other b v) v;
    },
  )
    where
      other : (b : ℕ) → contains s.visited b ≡ true → a == b ≡ false
      other b v = elim (Bool-cases (a == b)) [
        | inl e ↦
            let place : a ≡ b = ground arith in
            absurd (cc (sym new ∙ ap (contains s.visited) place ∙ v))
        | inr e ↦ e
      ]

  enter-keeps :
      (a depth : ℕ) (go : ℕ → Exec Graph Unit)
      → ((c : ℕ) → Keeps (go c))
      → (e : Option Raised) (s : Graph) → contains s.visited a ≡ false
      → IsCapped s
      → IsCapped (enter ida lim go a depth e s).1 × IsLater s (enter ida lim go a depth e s).1
  unfolding enter visit marked
  enter-keeps a depth go keeps (some e) s new h =
      (IsCapped-same s _ refl refl h, IsLater-refl s _ refl refl)
  enter-keeps a depth go keeps none s new h = elim (Option-cases (ida.get_func a)) [
    | inl e ↦
        rw (e, enter)
          (
            record { few = h.few; none_yet = λ b n. h.none_yet b (ground (arith, n)) },
            record { stays = λ b v. ground (arith, v); same = λ b v. refl },
          )
    | inr (f, e) ↦
        let (n, walked) =
          items-walk s a go keeps (ida.func_items f.start_ea) 0
            (with_node a depth f (marked a (record s { visit_count = suc s.visit_count })))
            (begins-walk a depth f s new h) in
        rw (e, enter) (ends-walk a n s _ new walked)
  ]

  traverse-keeps : (left a depth : ℕ) → Keeps (traverse ida lim left a depth)
  unfolding traverse gated gate_of cut
  traverse-keeps zero a depth s h = (h, IsLater-refl s s refl refl)
  traverse-keeps (suc left) a depth s h = elim (Bool-cases (s.truncated || contains s.visited a)) [
    | inl e ↦ rw (e, traverse) (h, IsLater-refl s s refl refl)
    | inr e ↦ elim (Bool-cases (leb lim.max_nodes (length s.nodes))) [
      | inl f ↦ rw (e, f, traverse) (IsCapped-same s _ refl refl h, IsLater-refl s _ refl refl)
      | inr f ↦
          rw (e, f, traverse)
            (enter-keeps a depth (λ c. traverse ida lim left c (suc depth))
              (λ c. traverse-keeps left c (suc depth)) (polled ida (suc s.visit_count)) s
              (ground arith) h)
    ]
  ]

  blank-IsCapped : IsCapped blank
  unfolding blank
  blank-IsCapped = record { few = λ b. omega arith; none_yet = λ b n. refl }

  pub traverse-IsCapped : (left a depth : ℕ) → IsCapped (traverse ida lim left a depth blank).1
  traverse-IsCapped left a depth = (traverse-keeps left a depth blank blank-IsCapped).0
