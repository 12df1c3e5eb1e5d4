-- ===== src/Tools/Query/Rows.antt =====
-- The rows that a query goes through.
use mathlib.Core.List.{Memᴰ}
use mathlib.Core.List.Memᴰ
use mathlib.Core.Logic.{⊎_elim}
use ida_mcp.Prelude.{
  ℕ, zero, suc, ◌+◌, ◌++◌, min, max, leb, nat_eq, ◌≡◌, ◌≤◌, none, if◌then◌else◌, refl, ap, ◌∙◌, ◌↔◌,
  ◌⊎◌, inl, inr, Bool, true, Option, some, List, [], ◌∷◌, keep, length, text_eq, Bool-cases, arith,
}
use ida_mcp.Prelude.Sort.{sort, sort-IsSorted, mem-sort, length-sort}
use ida_mcp.Text.{Text}
use ida_mcp.Prelude.Int.{ℤ, pos, negsuc, ◌+ℤ◌, ltb_ℤ}
use ida_mcp.Tools.Limits.{paginate, index, page_size}
use ida_mcp.Tools.Limits.Pages.{slice-splits}
use ida_mcp.Tools.Query.{Row, Query, passes, before, page, answered, matcher, func_query}
use ida_mcp.Tools.Query.Filters.{Passes, AllOrdered, passes_iff, IsSorted-AllOrdered, before-total}

mem-passing :
    (p : Row → Bool) (a : Row) (rs : List Row) → Memᴰ a (keep p rs) ↔ (Memᴰ a rs × (p a ≡ true))
mem-passing p a [] = (λ m. absurd (Memᴰ.not-nil m), λ h. absurd (Memᴰ.not-nil h.0))
mem-passing p a (r ∷ rs) = elim (Bool-cases (p r)) [
  | inl e ↦ rw e (
    λ m.
        ⊎_elim (λ q. (Memᴰ.head q, ap p q ∙ e))
          (λ n. let h = (mem-passing p a rs).0 n in (Memᴰ.tail h.0, h.1)) (Memᴰ.cases_cons m),
    λ (m, h). ⊎_elim Memᴰ.head (λ n. Memᴰ.tail ((mem-passing p a rs).1 (n, h))) (Memᴰ.cases_cons m),
  )
  | inr e ↦ rw e (
    λ m. let h = (mem-passing p a rs).0 m in (Memᴰ.tail h.0, h.1),
    λ (m, h).
        ⊎_elim (λ q. absurd (cc (ap p q, e, h))) (λ n. (mem-passing p a rs).1 (n, h))
          (Memᴰ.cases_cons m),
  )
]

-- The place p among n to which an index of a slice points.
abbrev pub Points : ℕ → ℤ → ℕ → Type 0
Points n (pos k) p = p ≡ min k n
Points n (negsuc k) p = (p + suc k ≡ n) ⊎ ((p ≡ 0) × (n ≤ suc k))

-- How many rows a count asks for, of n.
abbrev pub AsksFor : ℤ → ℕ → ℕ → Type 0
AsksFor (pos zero) n size = size ≡ n
AsksFor (pos (suc k)) n size = size ≡ suc k
AsksFor (negsuc k) n size = size ≡ n

Points-index : (n : ℕ) (i : ℤ) → Points n i (index n i)
Points-index n (pos k) = refl
Points-index n (negsuc k) = elim (Bool-cases (leb n (suc k))) [
  | inl e ↦ inr (ground (arith, e), ground (arith, e))
  | inr e ↦ inl (ground (arith, e))
]

AsksFor-page_size : (count : ℤ) (n : ℕ) → AsksFor count n (page_size n count)
unfolding nat_eq
AsksFor-page_size (pos zero) n = refl
AsksFor-page_size (pos (suc k)) n = ground arith
AsksFor-page_size (negsuc k) n = refl

-- What a query answers with, of all rows: those that pass its tests, as many as they are, in the order
-- asked for, with the page at its offset, which a negative one counts from the end; and the offset behind
-- the page, where it is below the number of rows.
pub record IsAnswer (fnmatch : Text → Text → Bool) (compile : Text → Option (Text → Bool))
    (rows : List Row) (q : Query) (p : Row → Bool) (shown : List Row) (total : ℕ) (next : Option ℤ)
    : Type 0 where
  pub sorted : List Row
  pub all_ordered : AllOrdered q sorted
  pub exactly : (a : Row) → Memᴰ a sorted ↔ (Memᴰ a rows × Passes fnmatch compile q a)
  pub kept : (a : Row) → (p a ≡ true) ↔ Passes fnmatch compile q a
  pub as_many : length sorted ≡ length (keep p rows)
  pub total_is : total ≡ length sorted
  pub front : List Row
  pub back : List Row
  pub split : sorted ≡ front ++ (shown ++ back)
  pub size : ℕ
  pub asked : AsksFor q.count total size
  pub begins : Points total q.offset (length front)
  pub stop : ℕ
  pub stops : Points total (q.offset +ℤ pos size) stop
  pub ends : length (front ++ shown) ≡ max (length front) stop
  pub next_is :
      next
      ≡ (if ltb_ℤ (q.offset +ℤ pos size) (pos total) then some (q.offset +ℤ pos size) else none)

-- A query with a pattern that compiles answers with a page of the rows that pass every test asked for,
-- sorted by the key and in the direction asked for, and with their number: the rows from the offset on, as
-- many as the count asks for, as Python slices a list with these indices.
pub func_query-IsAnswer :
    (fnmatch : Text → Text → Bool) (compile : Text → Option (Text → Bool)) (rows : List Row)
    (q : Query) (matches : Text → Bool)
    → matcher compile q.name_regex ≡ some matches
    → (shown : List Row) × (total : ℕ) × (next : Option ℤ) × (func_query fnmatch compile rows q
        ≡ page shown total next)
      × IsAnswer fnmatch compile rows q (passes fnmatch q matches) shown total next
unfolding func_query answered paginate
func_query-IsAnswer fnmatch compile rows q matches e =
    let p = passes fnmatch q matches in
    let kept = keep p rows in
    let sorted = sort (before q) kept in
    let cut = paginate sorted q.offset q.count in
    let total = length sorted in
    let size = page_size total q.count in
    let (front, back, split, begins, ends) = slice-splits sorted q.offset (q.offset +ℤ pos size) in
    (
      cut.0,
      total,
      cut.1,
      rw (e, func_query) refl,
      record {
        sorted = sorted;
        all_ordered = IsSorted-AllOrdered q sorted (sort-IsSorted (before q) (before-total q) kept);
        exactly = λ a.
            let m = mem-sort (before q) (before-total q) a kept in
            let k = mem-passing p a rows in
            let t = passes_iff fnmatch compile q matches a e in
            (λ n. let h = k.0 (m.0 n) in (h.0, t.0 h.1), λ h. m.1 (k.1 (h.0, t.1 h.1)));
        kept = λ a. passes_iff fnmatch compile q matches a e;
        as_many = length-sort (before q) (before-total q) kept;
        total_is = refl;
        front = front;
        back = back;
        split = split;
        size = size;
        asked = AsksFor-page_size q.count total;
        begins = rw begins (Points-index total q.offset);
        stop = index total (q.offset +ℤ pos size);
        stops = Points-index total (q.offset +ℤ pos size);
        ends = rw begins ends;
        next_is = refl;
      },
    )
