-- ===== src/Mcp/Post/Replies.antt =====
-- What a POST is answered.
use ida_mcp.Prelude.{◌≡◌, ◌≢◌, refl, Bool, true, false, Option, none, some, [], ◌∷◌, inr}
use ida_mcp.Prelude.Int.{minus}
use ida_mcp.Text.{Text, lit}
use ida_mcp.Json.{null, obj, end, get}
use ida_mcp.Exec.{Result, ok, err}
use ida_mcp.State.{State}
use ida_mcp.Jsonrpc.{Env, Registry, parsed, Response, error, dispatch, dispatch_value, is_version}
use ida_mcp.Jsonrpc.Replies.{MethodsContained, Returns, dispatch-Returns}
use ida_mcp.Mcp.Sessions.{Sessions}
use ida_mcp.Mcp.Body.{Bytes, Body, accepted, refused}
use ida_mcp.Mcp.Post.{
  Reply, answer, dropped, request_of, loaded, is_initialize, reply_to, answered, handle_mcp_post,
}

-- The handler sent a reply.
abbrev pub IsSent : Reply → Type 0
IsSent (dropped e) = ⊥
IsSent _ = Unit

module _ (env : Env) (decode : Bytes → Option Text) (r : Registry) where
  sent :
      (starts : Bool) (session : Option Text) (fresh : Text) (ss : Sessions)
      (x : Result (Option Response)) (st : State)
      → Returns x
      → IsSent (answered env decode r starts session fresh ss x st).0
  unfolding answered reply_to
  sent starts session fresh ss (err e) st h = absurd h
  sent true session fresh ss (ok none) st h = tt
  sent true session fresh ss (ok (some x)) st h = tt
  sent false session fresh ss (ok none) st h = tt
  sent false session fresh ss (ok (some x)) st h = tt

  -- Every POST gets a reply, whatever its body is, where no method raises a BaseException that is no
  -- Exception.
  pub handle_mcp_post-IsSent :
      MethodsContained r
      → (session : Option Text) (fresh : Text) (body : Body) (st : State) (ss : Sessions)
      → IsSent (handle_mcp_post env decode r session fresh body st ss).0
  unfolding handle_mcp_post
  handle_mcp_post-IsSent contained session fresh (refused code message) st ss = tt
  handle_mcp_post-IsSent contained session fresh (accepted body) st ss =
      let request = request_of env decode r body in
      sent (is_initialize env decode r request) session fresh ss _ _
        (dispatch-Returns env r contained (parsed request) st)

  loaded-malformed :
      (t reason : Text) → env.loads t ≡ inr reason → loaded env decode r (some t) ≡ obj end
  unfolding loaded
  loaded-malformed t reason l = rw (l, loaded) refl

  -- A body that is not JSON is answered as an invalid request (-32600), not as a parse error (-32700),
  -- and changes nothing.
  pub post-malformed :
      (session : Option Text) (fresh : Text) (body : Bytes) (t reason : Text) (st : State)
      (ss : Sessions)
      → body ≢ []
      → decode body ≡ some t
      → env.loads t ≡ inr reason
      → handle_mcp_post env decode r session fresh (accepted body) st ss ≡ (
        answer
            (error (minus 32600) (lit "Invalid request: 'jsonrpc' must be '2.0'") none null)
            session,
        st,
        ss,
      )
  unfolding handle_mcp_post request_of dispatch dispatch_value is_initialize answered reply_to get
      is_version
  post-malformed session fresh [] t reason st ss h d l = absurd (h refl)
  post-malformed session fresh (b ∷ bs) t reason st ss h d l =
      simp (d, loaded-malformed t reason l) refl
