-- ===== src/Mcp/Call/Concurrent.antt =====
-- Several requests at once: the steps of _mcp_tools_call that touch the gate, in any order, with
-- whatever the tools and the other requests do in between.
use ida_mcp.Prelude.{
  ℕ, ◌+◌, ◌≤◌, ◌≡◌, ◌↔◌, Bool, true, false, Option, List, [], ◌∷◌, ◌++◌, arith, length, suc,
  length-append, refl, if◌then◌else◌,
}
use ida_mcp.Text.{Text}
use ida_mcp.Json.{Float, Value, null, Key}
use ida_mcp.Exec.{Raised, ok, err}
use ida_mcp.State.{State}
use ida_mcp.Jsonrpc.{Env, register_pending_request}
use ida_mcp.Mcp.Server.{Server}
use ida_mcp.Mcp.Call.{settle, register, acquire}
use ida_mcp.Mcp.Call.Gate.{settle-gate}

-- What taking the gate does to it.
acquire-gate :
    (key : Key) (st : State)
    → (if (acquire key st).0 then suc (acquire key st).1.gate else (acquire key st).1.gate)
      ≡ st.gate
acquire-gate key st = ground arith

module _ (parse_float : Text → Option Float) (env : Env) (s : Server) where
  register-gate : (id : Value) (st : State) → (register parse_float env id st).1.gate ≡ st.gate
  unfolding register register_pending_request
  register-gate null st = refl
  register-gate id st = ground arith

  -- What the process shares, the requests that are between the gate and the `finally` block, and how
  -- many calls raised between the gate and the `try`.
  pub record World : Type 0 where
    pub state : State
    pub inside : List ℕ
    pub lost : ℕ

  pub data Step : World → World → Type 0 where
    -- A request takes the gate and registers its id.
    enters :
        {st : State} {rs : List ℕ} {n : ℕ} (r : ℕ) (key : Key)
        → (acquire key st).0 ≡ true
        → (register parse_float env st.request_id (acquire key st).1).0 ≡ ok tt
        → Step
            (record { state = st; inside = rs; lost = n })
            (record {
              state = (register parse_float env st.request_id (acquire key st).1).1;
              inside = r ∷ rs;
              lost = n;
            })
    -- A request takes the gate and its registration raises.
    is_lost :
        {st : State} {rs : List ℕ} {n : ℕ} (key : Key) (e : Raised)
        → (acquire key st).0 ≡ true
        → (register parse_float env st.request_id (acquire key st).1).0 ≡ err e
        → Step
            (record { state = st; inside = rs; lost = n })
            (record {
              state = (register parse_float env st.request_id (acquire key st).1).1;
              inside = rs;
              lost = suc n;
            })
    -- A request finds the gate taken.
    is_turned_away :
        {st : State} {rs : List ℕ} {n : ℕ} (key : Key)
        → (acquire key st).0 ≡ false
        → Step
            (record { state = st; inside = rs; lost = n })
            (record { state = (acquire key st).1; inside = rs; lost = n })
    -- A tool works, or another thread runs: anything but the gate may change.
    works :
        {st st' : State} {rs : List ℕ} {n : ℕ}
        → st'.gate ≡ st.gate
        → Step
            (record { state = st; inside = rs; lost = n })
            (record { state = st'; inside = rs; lost = n })
    -- A request that is inside runs its `finally` block.
    leaves :
        {st : State} {n : ℕ} (ps qs : List ℕ) (r : ℕ) (name : Value) (key : Key)
        (request_id arguments : Value) (started : ℕ) (failed : Bool)
        → Step
            (record { state = st; inside = ps ++ r ∷ qs; lost = n })
            (record {
              state = settle parse_float env s true name key request_id arguments started failed st;
              inside = ps ++ qs;
              lost = n;
            })

  pub data Reachable (first : State) : World → Type 0 where
    at_first : Reachable first (record { state = first; inside = []; lost = 0 })
    after : {w v : World} → Reachable first w → Step w v → Reachable first v

  counted :
      (first : State) (w : World)
      → Reachable first w
      → w.state.gate + length w.inside + w.lost ≡ first.gate
  counted first w at_first = omega arith
  counted first w (after r (enters {st} {rs} {n} i key got id)) =
      let before = counted first (record { state = st; inside = rs; lost = n }) r in
      let same = register-gate st.request_id (acquire key st).1 in
      let taken = rw got at (acquire-gate key st) in omega (arith, before, same, taken)
  counted first w (after r (is_lost {st} {rs} {n} key e got id)) =
      let before = counted first (record { state = st; inside = rs; lost = n }) r in
      let same = register-gate st.request_id (acquire key st).1 in
      let taken = rw got at (acquire-gate key st) in omega (arith, before, same, taken)
  counted first w (after r (is_turned_away {st} {rs} {n} key taken)) =
      let before = counted first (record { state = st; inside = rs; lost = n }) r in
      let same = rw taken at (acquire-gate key st) in omega (arith, before, same)
  counted first w (after r (works {st} {st'} {rs} {n} e)) =
      omega (arith, e, counted first (record { state = st; inside = rs; lost = n }) r)
  counted first w (after r (leaves {st} {n} ps qs i name key id args started failed)) = omega (
    arith,
    counted first (record { state = st; inside = ps ++ i ∷ qs; lost = n }) r,
    settle-gate parse_float env s true id key name args started failed st,
    length-append ps (i ∷ qs),
    length-append ps qs,
  )

  turned-away_iff : (key : Key) (st : State) → ((acquire key st).0 ≡ false) ↔ (st.gate ≡ 0)
  turned-away_iff key st = ground arith

  -- In any interleaving of gated requests, no more tools run at once than the gate had permits at first,
  -- and a request is turned away as busy exactly while the tools that run, with the calls that took the
  -- gate and then raised as their id was registered, are that many.
  pub Reachable-IsExclusive :
      (first : State) (w : World)
      → Reachable first w
      → (length w.inside ≤ first.gate)
        × ((key : Key)
            → ((acquire key w.state).0 ≡ false) ↔ (length w.inside + w.lost ≡ first.gate))
  Reachable-IsExclusive first w r =
      let total = counted first w r in
      (
        omega (arith, total),
        λ key. (
          λ h. let none_left = (turned-away_iff key w.state).0 h in omega (arith, total, none_left),
          λ h. (turned-away_iff key w.state).1 (omega (arith, total, h)),
        ),
      )
