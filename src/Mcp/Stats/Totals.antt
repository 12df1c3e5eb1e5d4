-- ===== src/Mcp/Stats/Totals.antt =====
-- The totals of the metrics are the sums over the tools.
use ida_mcp.Prelude.{
  ℕ, ◌+◌, ◌≤◌, ◌≡◌, refl, Bool, true, false, Option, none, some, List, [], ◌∷◌, ◌++◌, arith, length,
  length-append, length-drop,
}
use ida_mcp.Prelude.Dict.{Dict, lookup, insert}
use ida_mcp.Json.{Key, key_eq}
use ida_mcp.State.{ToolStats, Stats}
use ida_mcp.Mcp.Stats.{
  append_bounded, max_durations, or_fresh, fresh_stats, bump, with_duration, record_busy,
  record_call,
}

abbrev pub total : (ToolStats → ℕ) → Dict Key ToolStats → ℕ
total f [] = 0
total f ((k, t) ∷ d) = f t + total f d

total-insert :
    (f : ToolStats → ℕ) (k : Key) (t : ToolStats) (d : Dict Key ToolStats)
    → f fresh_stats ≡ 0
    → total f (insert k t d) + f (or_fresh (lookup k d)) ≡ total f d + f t
unfolding insert lookup
total-insert f k t [] zero_fresh = omega arith
total-insert f k t ((j, u) ∷ d) zero_fresh = ground (arith, total-insert f k t d zero_fresh)

-- What holds of one tool: no more errors than calls, and a bounded window of durations.
pub record IsSound (t : ToolStats) : Type 0 where
  pub failed : t.errors ≤ t.calls
  pub window : length t.durations ≤ max_durations

abbrev pub Sound : Dict Key ToolStats → Type 0
Sound [] = Unit
Sound ((k, t) ∷ d) = IsSound t × Sound d

insert-Sound :
    (k : Key) (t : ToolStats) (d : Dict Key ToolStats) → IsSound t → Sound d → Sound (insert k t d)
unfolding insert
insert-Sound k t [] h hs = (h, tt)
insert-Sound k t ((j, u) ∷ d) h hs = ground (arith, insert-Sound k t d h hs.1)

lookup-IsSound : (k : Key) (d : Dict Key ToolStats) → Sound d → IsSound (or_fresh (lookup k d))
unfolding lookup
lookup-IsSound k [] hs = omega arith
lookup-IsSound k ((j, u) ∷ d) hs = ground (arith, lookup-IsSound k d hs.1)

append_bounded-le :
    (ds : List ℕ) (d : ℕ) → length ds ≤ max_durations → length (append_bounded ds d) ≤ max_durations
unfolding append_bounded
append_bounded-le ds d h = ground (arith, length-append ds (d ∷ []), length-drop 1 (ds ++ d ∷ []))

pub record IsCounted (s : Stats) : Type 0 where
  pub all_calls : s.total_calls ≡ total (λ t. t.calls) s.tools
  pub all_errors : s.total_errors ≡ total (λ t. t.errors) s.tools
  pub all_busy : s.total_busy ≡ total (λ t. t.busy) s.tools
  pub each : Sound s.tools

abbrev one_if : Bool → ℕ
one_if true = 1
one_if false = 0

bump_add : (b : Bool) (n : ℕ) → bump b n ≡ n + one_if b
bump_add true n = refl
bump_add false n = omega arith

with_duration-le :
    (o : Option ℕ) (ds : List ℕ)
    → length ds ≤ max_durations
    → length (with_duration o ds) ≤ max_durations
with_duration-le none ds h = h
with_duration-le (some d) ds h = append_bounded-le ds d h

called :
    (failed : Bool) (duration : Option ℕ) (t : ToolStats)
    → IsSound t
    → IsSound (record t {
      calls = t.calls + 1;
      errors = bump failed t.errors;
      durations = with_duration duration t.durations;
    })
called failed duration t h = record {
  failed = ground arith;
  window = with_duration-le duration t.durations h.window;
}

module _ (name : Key) (s : Stats) (h : IsCounted s) where
  -- A refusal because the server is busy keeps the totals equal to the sums over the tools, the
  -- errors of a tool at most its calls, and its durations at most 200.
  pub record_busy-IsCounted : IsCounted (record_busy name s)
  unfolding record_busy
  record_busy-IsCounted =
      let t = or_fresh (lookup name s.tools) in
      let u = record t { busy = t.busy + 1 } in
      record {
        all_calls = omega (arith, h.all_calls, total-insert (λ r. r.calls) name u s.tools refl);
        all_errors = omega (arith, h.all_errors, total-insert (λ r. r.errors) name u s.tools refl);
        all_busy = omega (arith, h.all_busy, total-insert (λ r. r.busy) name u s.tools refl);
        each =
            insert-Sound name u s.tools
              (let p = lookup-IsSound name s.tools h.each in
                record { failed = p.failed; window = p.window })
              h.each;
      }

  -- Recording a call, whether it failed or not, keeps the totals equal to the sums over the tools, the
  -- errors of a tool at most its calls, and its durations at most 200.
  pub record_call-IsCounted :
      (failed : Bool) (duration : Option ℕ) → IsCounted (record_call name failed duration s)
  unfolding record_call
  record_call-IsCounted failed duration =
      let t = or_fresh (lookup name s.tools) in
      let u = record t {
        calls = t.calls + 1;
        errors = bump failed t.errors;
        durations = with_duration duration t.durations;
      } in
      record {
        all_calls = omega (arith, h.all_calls, total-insert (λ r. r.calls) name u s.tools refl);
        all_errors = omega (
          arith,
          h.all_errors,
          total-insert (λ r. r.errors) name u s.tools refl,
          bump_add failed t.errors,
          bump_add failed s.total_errors,
        );
        all_busy = omega (arith, h.all_busy, total-insert (λ r. r.busy) name u s.tools refl);
        each =
            insert-Sound name u s.tools
              (called failed duration t (lookup-IsSound name s.tools h.each)) h.each;
      }
