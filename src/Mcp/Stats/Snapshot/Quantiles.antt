-- ===== src/Mcp/Stats/Snapshot/Quantiles.antt =====
-- What the snapshot of the metrics shows.
use mathlib.Core.List.{Memᴰ}
use ida_mcp.Prelude.{
  ℕ, zero, suc, ◌*◌, ◌≤◌, ◌≡◌, ◌↔◌, ◌∙◌, ap, min, refl, true, false, Option, none, some, List, [],
  ◌∷◌, map, length, leb, leb→le, arith, nat_eq,
}
use ida_mcp.Prelude.Int.{ℤ}
use ida_mcp.Prelude.Sort.{sort, IsSorted, sort-IsSorted, mem-sort, length-sort}
use ida_mcp.Json.{Key}
use ida_mcp.State.{ToolStats, Stats}
use ida_mcp.Mcp.Stats.Snapshot.{
  Metric, round_percent, nth, pct, last, rounded, metric_of, top_of, busier, get_stats,
}

-- All three are there and in order, or none is.
abbrev pub InOrder : Option ℕ → Option ℕ → Option ℕ → Type 0
InOrder none none none = Unit
InOrder (some a) (some b) (some c) = (a ≤ b) × (b ≤ c)
InOrder _ _ _ = ⊥

head-le-nth : (x : ℕ) (xs : List ℕ) (j : ℕ) → IsSorted leb (x ∷ xs) → x ≤ nth x xs j
head-le-nth x xs zero h = omega arith
head-le-nth x [] (suc j) h = omega arith
head-le-nth x (y ∷ ys) (suc j) h = omega (arith, leb→le x y h.0, head-le-nth y ys j h.1)

nth_mono : (x : ℕ) (xs : List ℕ) (i j : ℕ) → IsSorted leb (x ∷ xs) → i ≤ j → nth x xs i ≤ nth x xs j
nth_mono x xs zero j h le = head-le-nth x xs j h
nth_mono x xs (suc i) zero h le = absurd (omega arith)
nth_mono x [] (suc i) (suc j) h le = omega arith
nth_mono x (y ∷ ys) (suc i) (suc j) h le = nth_mono y ys i j h.1 (omega arith)

round_percent_mono : (m : ℕ) → round_percent (50 * m) ≤ round_percent (95 * m)
round_percent_mono m = ground arith

quantiles-InOrder :
    (round : ℕ → ℕ)
    → ((a b : ℕ) → a ≤ b → round a ≤ round b)
    → (ds : List ℕ) → IsSorted leb ds
    → InOrder (rounded round (pct ds 50)) (rounded round (pct ds 95)) (rounded round (last ds))
unfolding pct last
quantiles-InOrder round mono [] h = tt
quantiles-InOrder round mono (x ∷ xs) h =
    let n = length xs in
    let i = min n (round_percent (50 * n)) in
    let j = min n (round_percent (95 * n)) in
    let le : i ≤ j = omega (arith, round_percent_mono n) in
    let in_range : j ≤ n = omega arith in
    (
      mono (nth x xs i) (nth x xs j) (nth_mono x xs i j h le),
      mono (nth x xs j) (nth x xs n) (nth_mono x xs j n h in_range),
    )

leb-total : (a b : ℕ) → leb a b ≡ false → leb b a ≡ true
leb-total a b h = ground arith

busier-total : (a b : Metric) → busier a b ≡ false → busier b a ≡ true
busier-total a b h = leb-total b.calls a.calls h

length-map_entries :
    (f : Key × ToolStats → Metric) (d : List (Key × ToolStats)) → length (map f d) ≡ length d
length-map_entries f [] = refl
length-map_entries f (x ∷ d) = ap suc (length-map_entries f d)

-- The tools shown are the first ones, as many as asked for, of all tools in the order of their calls.
pub record IsSnapshot (round : ℕ → ℕ) (top : ℤ) (s : Stats) : Type 0 where
  pub sorted : List Metric
  pub by_calls : IsSorted busier sorted
  pub exactly : (m : Metric) → Memᴰ m sorted ↔ Memᴰ m (map (metric_of round) s.tools)
  pub as_many : length sorted ≡ length s.tools
  pub shown : (get_stats round top s).tools ≡ top_of top sorted
  pub quantiles :
      (name : Key) (t : ToolStats)
      → let m = metric_of round (name, t) in InOrder m.p50 m.p95 m.max_ms

-- Where rounding keeps the order of durations, the snapshot shows the first tools, as many as asked for, of
-- a list in falling order of calls that holds exactly the metrics of all tools and is as long as their
-- table; and for any tool it gives either no duration, or a median that is at most the 95th percentile,
-- which is at most the greatest.
pub get_stats-IsSnapshot :
    (round : ℕ → ℕ) (top : ℤ) (s : Stats)
    → ((a b : ℕ) → a ≤ b → round a ≤ round b)
    → IsSnapshot round top s
unfolding get_stats metric_of
get_stats-IsSnapshot round top s mono =
    let all = map (metric_of round) s.tools in
    record {
      sorted = sort busier all;
      by_calls = sort-IsSorted busier busier-total all;
      exactly = λ m. mem-sort busier busier-total m all;
      as_many = length-sort busier busier-total all ∙ length-map_entries (metric_of round) s.tools;
      shown = refl;
      quantiles = λ name t.
          quantiles-InOrder round mono (sort leb t.durations)
            (sort-IsSorted leb leb-total t.durations);
    }
