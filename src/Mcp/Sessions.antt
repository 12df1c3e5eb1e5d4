-- ===== src/Mcp/Sessions.antt =====
-- The HTTP sessions (mcp.py: register_http_session, has_http_session, _prune_sessions). Times are
-- whole ticks of the monotonic clock, an argument of each call.
pub mod Lifetime
pub mod Refinement
use ida_mcp.Prelude.{
  ℕ, ◌+◌, Bool, true, false, not, Option, none, some, List, [], ◌∷◌, ltb, if◌then◌else◌, length,
  keep, text_eq,
}
use ida_mcp.Prelude.Dict.{Dict, lookup, insert, erase}
use ida_mcp.Text.{Text}

pub record Sessions : Type 0 where
  pub table : Dict Text ℕ  -- oldest first
  pub ttl_sec : ℕ  -- 0: no expiry
  pub max_count : ℕ  -- 0: no bound

-- t < now - ttl, on numbers that do not go below 0
abbrev pub is_expired : ℕ → ℕ → ℕ → Bool
is_expired ttl now t = ltb (t + ttl) now

-- while len(sessions) > max_count: drop the first
unfoldable pub trim : ℕ → Dict Text ℕ → Dict Text ℕ
trim max_count [] = []
trim max_count ((k, t) ∷ d) =
    let rest = trim max_count d in if ltb max_count (length ((k, t) ∷ d)) then rest else (k, t) ∷ d

unfoldable pub drop_expired : ℕ → ℕ → Dict Text ℕ → Dict Text ℕ
drop_expired ttl now d = if ltb 0 ttl then keep (λ (k, t). not (is_expired ttl now t)) d else d

unfoldable pub prune_table : Sessions → ℕ → Dict Text ℕ → Dict Text ℕ
unfolding trim drop_expired
prune_table s now d =
    let live = drop_expired s.ttl_sec now d in
    if ltb 0 s.max_count then trim s.max_count live else live

unfoldable pub register_http_session : Text → ℕ → Sessions → Sessions
unfolding prune_table
register_http_session id now s = record s {
  table = prune_table s now (insert id now (erase id s.table));
}

unfoldable pub has_http_session : Text → ℕ → Sessions → Bool × Sessions
unfolding prune_table
has_http_session id now s =
    let live = prune_table s now s.table in
    elim (lookup id live) [
      | none ↦ (false, record s { table = live })
      | some t ↦ (true, record s { table = insert id now (erase id live) })
    ]
