-- ===== src/Mcp/Post.antt =====
-- POST /mcp and the flags of a request's URL (mcp.py: McpHttpRequestHandler._parse_extensions,
-- _parse_request_flags, _handle_mcp_post). The headers and the query's parameters are given as texts,
-- empty where they are missing; decoding UTF-8 and making a session's identifier are parameters.
pub mod Replies
use ida_mcp.Prelude.{
  ℕ, Bool, true, false, not, Option, none, some, inl, inr, List, [], ◌∷◌, if◌then◌else◌, ◌==◌,
  text_eq,
}
use ida_mcp.Text.{Text, lit, strip, lower, split, is_empty}
use ida_mcp.Json.{Value, null, str, obj, Fields, end, get}
use ida_mcp.Exec.{Raised, Result, ok, err}
use ida_mcp.State.{State}
use ida_mcp.Jsonrpc.{Env, Registry, parsed, Response, dispatch}
use ida_mcp.Mcp.Server.{Context}
use ida_mcp.Mcp.Sessions.{Sessions, register_http_session}
use ida_mcp.Mcp.Body.{Bytes, Body, accepted, refused}

pub record Query : Type 0 where
  pub unsafe_flag : Text
  pub ext : Text
  pub token_header : Text
  pub token : Text
  pub profile : Text

-- _parse_extensions
unfoldable pub parse_extensions : Text → List Text
parse_extensions t = not_blank (split b',' t)
  where
    not_blank : List Text → List Text
    not_blank [] = []
    not_blank (a ∷ rest) =
        let more = not_blank rest in if is_empty (strip a) then more else strip a ∷ more

abbrev or_none : Text → Option Text
or_none [] = none
or_none (c ∷ t) = some (c ∷ t)

-- _parse_request_flags; the tools of a profile, none where it is unknown or cannot be read, are a parameter.
unfoldable pub parse_request_flags : (Text → Option (List Text)) → Query → Context
unfolding parse_extensions
parse_request_flags get_profile q =
    let token = if is_empty q.token_header then q.token else q.token_header in
    let profile = lower (strip q.profile) in
    record {
      unsafe_requested = lower (strip q.unsafe_flag) == lit "true";
      groups = parse_extensions q.ext;
      token = or_none (strip token);
      profile_name = or_none profile;
      profile_set = if is_empty profile then none else get_profile profile;
    }

pub data Reply : Type 0 where
  status : ℕ → Text → Reply  -- send_error
  answer : Response → Option Text → Reply  -- 200, with the session's header
  nothing : Option Text → Reply  -- 202
  dropped : Raised → Reply  -- what dispatch raised leaves the handler

module _ (env : Env) (decode : Bytes → Option Text) (r : Registry) where
  loaded : Option Text → Value
  loaded none = obj end
  loaded (some t) = elim (env.loads t) [ inl v ↦ v | inr reason ↦ obj end ]

  -- The request of a body: an empty or malformed one is {}.
  unfoldable pub request_of : Bytes → Value
  unfolding loaded
  request_of [] = loaded (some (lit "{}"))
  request_of (b ∷ bs) = loaded (decode (b ∷ bs))

  unfoldable pub is_initialize : Value → Bool
  is_initialize (obj fs) = elim (get (lit "method") fs) [
    | none ↦ false
    | some v ↦ elim v [ str m ↦ m == lit "initialize" | _ ↦ false ]
  ]
  is_initialize v = false

  reply_to : Option Text → Option Response → Reply
  reply_to session none = nothing session
  reply_to session (some x) = answer x session

  -- After the dispatch: an initialize is given a session.
  pub answered :
      Bool
      → Option Text
      → Text
      → Sessions
      → Result (Option Response)
      → State
      → Reply × State × Sessions
  unfolding reply_to
  answered starts session fresh ss (err e) st = (dropped e, st, ss)
  answered true session fresh ss (ok x) st =
      (reply_to (some fresh) x, st, register_http_session fresh st.now ss)
  answered false session fresh ss (ok x) st = (reply_to session x, st, ss)

  -- _handle_mcp_post, after the flags; `fresh` is the identifier that an initialize is given.
  unfoldable pub handle_mcp_post :
      Option Text → Text → Body → State → Sessions → Reply × State × Sessions
  unfolding answered
  handle_mcp_post session fresh (refused code message) st ss = (status code message, st, ss)
  handle_mcp_post session fresh (accepted body) st ss =
      let request = request_of body in
      let (result, st') = dispatch env r (parsed request) st in
      answered (is_initialize request) session fresh ss result st'
