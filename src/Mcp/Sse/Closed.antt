-- ===== src/Mcp/Sse/Closed.antt =====
-- Streams that were closed, and the table that names the live ones.
use ida_mcp.Prelude.{
  ◌≡◌, ap, sym, ◌∙◌, inl, inr, Bool, true, false, not, ◌&&◌, Option, none, some, List, [], ◌∷◌,
  if◌then◌else◌, ◌==◌, contains, text_eq, Bool-cases, Option-cases, arith,
}
use mathlib.Core.Option
use ida_mcp.Prelude.Dict.{Dict, lookup, insert, lookup-insert}
use ida_mcp.Text.{Text}
use ida_mcp.Exec.{Result, ok, err}
use ida_mcp.Jsonrpc.{Env, Registry, Request, Response}
use ida_mcp.Mcp.Body.{Bytes, Body, accepted, refused}
use ida_mcp.Mcp.Sse.{
  Event, endpoint, message, ping, Stream, Hub, send_event, send_on, send_to, is_alive, kill, pop,
  close_stream, open_stream, Tick, gone, quiet, due, round_of, stream_round, delete_stream,
  forwarded, posted, handle_sse_post, Op, opens, rounds, deletes, posts, apply, apply_all,
}

-- The operation makes no stream of this session: identifiers are drawn afresh.
abbrev pub spares : Text → Op → Bool
spares session (opens headers writes other_session) = not (session == other_session)
spares session _ = true

abbrev pub all_spare : Text → List Op → Bool
all_spare session [] = true
all_spare session (o ∷ os) = spares session o && all_spare session os

insert-keeps :
    (j k : Text) (v s : Stream) (d : Dict Text Stream)
    → lookup j d ≡ some s
    → (j == k ≡ true → v ≡ s)
    → lookup j (insert k v d) ≡ some s
insert-keeps j k v s d h same = elim (Bool-cases (j == k)) [
  | inl e ↦ ground (arith, lookup-insert j k v d, same e)
  | inr e ↦ ground (arith, lookup-insert j k v d)
]

module _ (session : Text) (s : Stream) (dead : s.alive ≡ false) where
  -- The stream is in the store as it was closed.
  abbrev IsShut : Hub → Type 0
  IsShut h = lookup session h.streams ≡ some s

  found-same :
      (k : Text) (t : Stream) (h : Hub)
      → IsShut h
      → lookup k h.streams ≡ some t
      → session == k ≡ true
      → t ≡ s
  found-same k t h shut e same =
      let eq : session ≡ k = ground arith in
      Option.some_inj.0 (sym e ∙ ap (λ j. lookup j h.streams) (sym eq) ∙ shut)

  send_event-dead : (writes : Bool) (e : Event) (t : Stream) → t ≡ s → (send_event writes e t).1 ≡ s
  unfolding send_event
  send_event-dead writes e t same =
      let still : t.alive ≡ false = ap (λ (u : Stream). u.alive) same ∙ dead in simp (same, dead)

  kill-dead : (t : Stream) → t ≡ s → (record t { alive = false }) ≡ s
  kill-dead t same =
      ap (λ (u : Stream). record u { alive = false }) same
      ∙ ap (λ b. record s { alive = b }) (sym dead)

  send_to-IsShut :
      (writes : Bool) (k : Text) (e : Event) (h : Hub) → IsShut h → IsShut (send_to writes k e h).1
  unfolding send_to send_on
  send_to-IsShut writes k e h shut = elim (Option-cases (lookup k h.streams)) [
    | inl f ↦ rw (f, send_to) shut
    | inr (t, f) ↦
        rw (f, send_to)
          (insert-keeps session k _ s h.streams shut
            (λ same. send_event-dead writes e t (found-same k t h shut f same)))
  ]

  kill-IsShut : (k : Text) (h : Hub) → IsShut h → IsShut (kill k h (lookup k h.streams))
  unfolding kill
  kill-IsShut k h shut = elim (Option-cases (lookup k h.streams)) [
    | inl f ↦ rw (f, kill) shut
    | inr (t, f) ↦
        rw (f, kill)
          (insert-keeps session k _ s h.streams shut
            (λ same. kill-dead t (found-same k t h shut f same)))
  ]

  close-IsShut : (k : Text) (h : Hub) → IsShut h → IsShut (close_stream k h)
  unfolding close_stream pop
  close-IsShut k h shut = kill-IsShut k h shut

  if-IsShut : (b : Bool) (x y : Hub) → IsShut x → IsShut y → IsShut (if b then x else y)
  if-IsShut true x y p q = p
  if-IsShut false x y p q = q

  open-IsShut :
      (headers writes : Bool) (k : Text) (h : Hub)
      → not (session == k) ≡ true
      → IsShut h
      → IsShut (open_stream headers writes k h)
  unfolding open_stream
  open-IsShut headers writes k h other shut =
      let fresh : Stream = record { alive = true; written = [] } in
      let made : Hub = record h {
        streams = insert k fresh h.streams;
        connections = k ∷ h.connections;
      } in
      let shut' : IsShut made =
        insert-keeps session k fresh s h.streams shut (λ e. absurd (ground arith)) in
      let sent = send_to-IsShut writes k (endpoint k) made shut' in
      if-IsShut (not headers) _ _ (close-IsShut k made shut')
        (if-IsShut (send_to writes k (endpoint k) made).0 _ _ sent (close-IsShut k _ sent))

  round-IsShut : (tick : Tick) (k : Text) (h : Hub) → IsShut h → IsShut (round_of tick k h)
  unfolding round_of
  round-IsShut gone k h shut = close-IsShut k h shut
  round-IsShut quiet k h shut = shut
  round-IsShut (due writes) k h shut =
      let sent = send_to-IsShut writes k ping h shut in
      if-IsShut (send_to writes k ping h).0 _ _ sent (close-IsShut k _ sent)

  module _ (env : Env) (read : Bytes → Request) (r : Registry) where
    forwarded-IsShut :
        (writes : Bool) (k : Text) (x : Result (Option Response)) (h : Hub)
        → IsShut h
        → IsShut (forwarded env read r writes k x h).1
    unfolding forwarded
    forwarded-IsShut writes k (err e) h shut = shut
    forwarded-IsShut writes k (ok none) h shut = shut
    forwarded-IsShut writes k (ok (some x)) h shut = send_to-IsShut writes k (message x) h shut

    posted-IsShut :
        (writes : Bool) (k : Text) (body : Body) (h : Hub)
        → IsShut h
        → IsShut (posted env read r writes k body h).1
    unfolding posted
    posted-IsShut writes k (refused code t) h shut = shut
    posted-IsShut writes k (accepted b) h shut = forwarded-IsShut writes k _ _ shut

    apply-IsShut :
        (o : Op) (h : Hub) → spares session o ≡ true → IsShut h → IsShut (apply env read r o h)
    unfolding apply stream_round delete_stream handle_sse_post pop
    apply-IsShut (opens headers writes k) h other shut = open-IsShut headers writes k h other shut
    apply-IsShut (rounds tick k) h other shut =
        if-IsShut (is_alive (lookup k h.streams)) _ _ (round-IsShut tick k h shut)
          (close-IsShut k h shut)
    apply-IsShut (deletes k) h other shut =
        if-IsShut (contains h.connections k) _ _ (kill-IsShut k h shut) shut
    apply-IsShut (posts writes none body) h other shut = shut
    apply-IsShut (posts writes (some k) body) h other shut =
        elim (Bool-cases (contains h.connections k && is_alive (lookup k h.streams))) [
          | inl e ↦ rw (e, apply) (posted-IsShut writes k body h shut)
          | inr e ↦ rw (e, apply) shut
        ]

-- A stream that was closed stays closed and is sent nothing more, whatever connections, pings, posts
-- and deletions follow, in any order, as long as its session's identifier is not drawn again.
pub apply_all-closed :
    (env : Env) (read : Bytes → Request) (r : Registry) (session : Text) (s : Stream) (os : List Op)
    (h : Hub)
    → s.alive ≡ false
    → all_spare session os ≡ true
    → lookup session h.streams ≡ some s
    → lookup session (apply_all env read r os h).streams ≡ some s
unfolding apply_all
apply_all-closed env read r session s [] h dead spare shut = shut
apply_all-closed env read r session s (o ∷ os) h dead spare shut =
    apply_all-closed env read r session s os _ dead (ground arith)
      (apply-IsShut session s dead env read r o h (ground arith) shut)
