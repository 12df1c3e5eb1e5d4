-- ===== src/Mcp/Stats/Snapshot.antt =====
-- The snapshot of the metrics (mcp.py: McpServer.get_stats), without the uptime. Rounding a duration to
-- a decimal is a parameter.
pub mod Quantiles
use ida_mcp.Prelude.{
  ℕ, zero, suc, ◌+◌, ◌-◌, ◌*◌, ◌/◌, ◌%◌, min, Bool, true, false, ◌&&◌, ◌||◌, Option, none, some,
  List, [], ◌∷◌, map, take, length, ltb, leb, if◌then◌else◌, ◌==◌, nat_eq,
}
use ida_mcp.Prelude.Int.{ℤ, pos, negsuc}
use ida_mcp.Prelude.Sort.{sort}
use ida_mcp.Json.{Key}
use ida_mcp.State.{ToolStats, Stats}

-- An entry of "tools".
pub record Metric : Type 0 where
  pub name : Key
  pub calls : ℕ
  pub errors : ℕ
  pub busy : ℕ
  pub p50 : Option ℕ
  pub p95 : Option ℕ
  pub max_ms : Option ℕ

pub record Snapshot : Type 0 where
  pub total_calls : ℕ
  pub total_errors : ℕ
  pub total_busy : ℕ
  pub tools : List Metric

-- int(round(n / 100)): to the nearest, and from the middle to the even number.
abbrev pub round_percent : ℕ → ℕ
round_percent n =
    if ltb 50 (n % 100) || (n % 100 == 50 && (n / 100) % 2 == 1) then n / 100 + 1 else n / 100

-- x :: xs at an index in its range
abbrev pub nth : ℕ → List ℕ → ℕ → ℕ
nth x xs zero = x
nth x [] (suc k) = x
nth x (y ∷ ys) (suc k) = nth y ys k

-- _pct, before the rounding of the value
unfoldable pub pct : List ℕ → ℕ → Option ℕ
pct [] p = none
pct (x ∷ xs) p = some (nth x xs (min (length xs) (round_percent (p * length xs))))

-- ds[-1]
unfoldable pub last : List ℕ → Option ℕ
last [] = none
last (x ∷ xs) = some (nth x xs (length xs))

abbrev pub rounded : (ℕ → ℕ) → Option ℕ → Option ℕ
rounded round none = none
rounded round (some d) = some (round d)

unfoldable pub metric_of : (ℕ → ℕ) → Key × ToolStats → Metric
unfolding pct last sort
metric_of round (name, t) =
    let ds = sort leb t.durations in
    record {
      name = name;
      calls = t.calls;
      errors = t.errors;
      busy = t.busy;
      p50 = rounded round (pct ds 50);
      p95 = rounded round (pct ds 95);
      max_ms = rounded round (last ds);
    }

-- items[:top]; a top of 0 asks for all.
unfoldable pub top_of : ℤ → List Metric → List Metric
top_of (pos n) ms = if n == 0 then ms else take n ms
top_of (negsuc n) ms = take (length ms - suc n) ms

-- The order of items.sort(key=calls, reverse=True).
abbrev pub busier : Metric → Metric → Bool
busier a b = leb b.calls a.calls

unfoldable pub get_stats : (ℕ → ℕ) → ℤ → Stats → Snapshot
unfolding metric_of sort top_of
get_stats round top s = record {
  total_calls = s.total_calls;
  total_errors = s.total_errors;
  total_busy = s.total_busy;
  tools = top_of top (sort busier (map (metric_of round) s.tools));
}
