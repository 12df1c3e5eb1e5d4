-- ===== src/Tools/Callgraph/Rounds.antt =====
-- A property of the graph that each change keeps, the whole walk keeps.
use mathlib.Core.List.{Memᴰ}
use ida_mcp.Prelude.{
  ℕ, zero, suc, ◌+◌, ◌≤◌, ◌<◌, ◌≡◌, refl, inl, inr, true, false, ◌||◌, Option, none, some, List, [],
  ◌∷◌, arith, leb, length, contains, nat_eq, Bool-cases, Option-cases,
}
use ida_mcp.Exec.{Raised, Result, ok, err, Exec, continue}
use ida_mcp.Tools.Callgraph.{
  Func, Ida, Limits, Limit, Graph, cut, gate_of, marked, with_node, linked, polled, walk_refs,
  walk_items, visit, enter, gated, traverse,
}

module _ (ida : Ida) where
  -- A function of IDA's whose items refer into another one.
  pub record Calls (a c : ℕ) : Type 0 where
    pub caller : Func
    pub is_caller : ida.get_func a ≡ some caller
    pub item : ℕ
    pub is_item : Memᴰ item (ida.func_items caller.start_ea)
    pub ref : ℕ
    pub is_ref : Memᴰ ref (ida.code_refs item)
    pub callee : Func
    pub is_callee : ida.get_func ref ≡ some callee
    pub start : c ≡ callee.start_ea

  -- Chains of calls from the root, by their length.
  pub data Chain (root : ℕ) : ℕ → ℕ → Type 0 where
    here : Chain root 0 root
    step : {k a c : ℕ} → Chain root k a → Calls a c → Chain root (suc k) c

  module _ (lim : Limits) (root : ℕ) where
    pub record Keeps (P : Graph → Type 0) : Type 0 where
      pub cuts : (why : Limit) (s : Graph) → P s → P (cut why s)
      pub caps : (s : Graph) → P s → P (record s { per_func_capped = true })
      pub counts : (s : Graph) → P s → P (record s { visit_count = suc s.visit_count })
      pub marks : (a : ℕ) (s : Graph) → contains s.visited a ≡ false → P s → P (marked a s)
      pub enters :
          (a depth : ℕ) (f : Func) (s : Graph)
          → Chain root depth a
          → depth ≤ lim.max_depth
          → ida.get_func a ≡ some f
          → length s.nodes < lim.max_nodes
          → P s
          → P (with_node a depth f s)
      pub links :
          (a depth c : ℕ) (s : Graph)
          → Chain root depth a
          → depth ≤ lim.max_depth
          → Calls a c
          → length s.edges < lim.max_edges
          → P s
          → P (linked a c s)

    module _ (P : Graph → Type 0) (k : Keeps P) where
      -- What `go` keeps at the callees of `a`.
      abbrev Follows : ℕ → (ℕ → Exec Graph Unit) → Type 0
      Follows a go = (c : ℕ) → Calls a c → (s : Graph) → P s → P (go c s).1

      continue-keeps :
          {A B : Type 0} (r : Result A) (m : A → Exec Graph B)
          → ((a : A) (s : Graph) → P s → P (m a s).1)
          → (s : Graph) → P s
          → P (continue r m s).1
      continue-keeps (ok a) m h s p = h a s p
      continue-keeps (err e) m h s p = p

      module _ (a depth : ℕ) (f : Func) (walk : Chain root depth a) (near : depth ≤ lim.max_depth)
          (is : ida.get_func a ≡ some f) (go : ℕ → Exec Graph Unit) (follows : Follows a go) where
        refs-keeps :
            (item : ℕ)
            → Memᴰ item (ida.func_items f.start_ea)
            → (refs : List ℕ) → ((r : ℕ) → Memᴰ r refs → Memᴰ r (ida.code_refs item))
            → (added : ℕ) (s : Graph) → P s
            → P (walk_refs ida lim go a added refs s).1
        unfolding walk_refs
        refs-keeps item m [] sub added s p = p
        refs-keeps item m (r ∷ refs) sub added s p = elim (Bool-cases s.truncated) [
          | inl e ↦ rw (e, walk_refs) p
          | inr e ↦ elim (Bool-cases (leb lim.max_edges_per_func added)) [
            | inl f ↦ rw (e, f, walk_refs) (k.caps s p)
            | inr f ↦ elim (Option-cases (ida.get_func r)) [
              | inl g ↦
                  rw (e, f, g, walk_refs)
                    (refs-keeps item m refs (λ q n. sub q (Memᴰ.tail n)) added s p)
              | inr (callee, g) ↦ elim (Bool-cases (leb lim.max_edges (length s.edges))) [
                | inl h ↦ rw (e, f, g, h, walk_refs) (k.cuts _ s p)
                | inr h ↦
                    let call : Calls a callee.start_ea = record {
                      caller = _;
                      is_caller = is;
                      item = item;
                      is_item = m;
                      ref = r;
                      is_ref = sub r (Memᴰ.head refl);
                      callee = callee;
                      is_callee = g;
                      start = refl;
                    } in
                    let s' = linked a callee.start_ea s in
                    rw (e, f, g, h, walk_refs)
                      (continue-keeps (go callee.start_ea s').0 _
                        (λ _ t. refs-keeps item m refs (λ q n. sub q (Memᴰ.tail n)) (suc added) t) _
                        (follows _ call s' (k.links a depth _ s walk near call (ground arith) p)))
              ]
            ]
          ]
        ]

        items-keeps :
            (items : List ℕ)
            → ((i : ℕ) → Memᴰ i items → Memᴰ i (ida.func_items f.start_ea))
            → (added : ℕ) (s : Graph) → P s
            → P (walk_items ida lim go a added items s).1
        unfolding walk_items
        items-keeps [] sub added s p = p
        items-keeps (item ∷ items) sub added s p = elim (Bool-cases s.truncated) [
          | inl e ↦ rw (e, walk_items) p
          | inr e ↦
              rw (e, walk_items)
                (continue-keeps (walk_refs ida lim go a added (ida.code_refs item) s).0 _
                  (λ n t. items-keeps items (λ q m. sub q (Memᴰ.tail m)) n t) _
                  (refs-keeps item (sub item (Memᴰ.head refl)) _ (λ r m. m) added s p))
        ]

      enter-keeps :
          (a depth : ℕ) (go : ℕ → Exec Graph Unit)
          → Chain root depth a
          → depth ≤ lim.max_depth
          → Follows a go
          → (e : Option Raised) (s : Graph) → length s.nodes < lim.max_nodes
          → contains s.visited a ≡ false
          → P s
          → P (enter ida lim go a depth e s).1
      unfolding enter visit marked
      enter-keeps a depth go walk near follows (some e) s few new p = k.counts s p
      enter-keeps a depth go walk near follows none s few new p =
          elim (Option-cases (ida.get_func a)) [
            | inl e ↦ rw (e, enter) (k.marks a _ new (k.counts s p))
            | inr (f, e) ↦
                rw (e, enter)
                  (let t = marked a (record s { visit_count = suc s.visit_count }) in
                    items-keeps a depth f walk near e go follows _ (λ i m. m) 0
                      (with_node a depth f t)
                      (k.enters a depth f t walk near e few (k.marks a _ new (k.counts s p))))
          ]

      pub traverse-keeps :
          (left a depth : ℕ)
          → depth + left ≡ suc lim.max_depth
          → Chain root depth a
          → (s : Graph) → P s
          → P (traverse ida lim left a depth s).1
      unfolding traverse gated gate_of
      traverse-keeps zero a depth near walk s p = p
      traverse-keeps (suc left) a depth near walk s p =
          elim (Bool-cases (s.truncated || contains s.visited a)) [
            | inl e ↦ rw (e, traverse) p
            | inr e ↦ elim (Bool-cases (leb lim.max_nodes (length s.nodes))) [
              | inl f ↦ rw (e, f, traverse) (k.cuts _ s p)
              | inr f ↦
                  rw (e, f, traverse)
                    (enter-keeps a depth (λ c. traverse ida lim left c (suc depth)) walk
                      (omega arith)
                      (λ c call. traverse-keeps left c (suc depth) (omega arith) (step walk call))
                      (polled ida (suc s.visit_count)) s (ground arith) (ground arith) p)
            ]
          ]
