-- ===== src/Tests/Calls.antt =====
-- The theorems on calls, at calls of the fixture's tools.
use ida_mcp.Prelude.{◌≡◌, ◌↔◌, ◌⊎◌, refl, true, none, some, [], ◌∷◌, arith, text_eq}
use ida_mcp.Prelude.Dict.{lookup}
use ida_mcp.Text.{Text, lit}
use ida_mcp.Json.{null, str, obj, arr, nil, end, fields, get, text, key_of}
use ida_mcp.Exec.{ok}
use ida_mcp.Jsonrpc.{Method, parsed, raw, dispatch, is_version}
use ida_mcp.Mcp.Access.{
  MayCall, denial, auth_ok, compare_digest, is_ascii, get_tool_extension, listed_tools,
}
use ida_mcp.Mcp.Call.{tools_registry, tools_call, busy_result}
use ida_mcp.Mcp.Result.{CallResult}
use ida_mcp.Mcp.Call.Gate.{BodiesKeepGate, IsHashable, gate-tools_call}
use ida_mcp.Mcp.Call.Leak.{serve, unhashable_id-busy}
use ida_mcp.Mcp.Call.Pending.{IsForgotten, tools_call-IsForgotten}
use ida_mcp.Mcp.Call.Refusal.{tools_call-refused}
use mathlib.Core.List.{Mem}
use ida_mcp.Json.{Fields}
use ida_mcp.Jsonrpc.{result, dispatch_value, dispatch_method, call, respond, run}
use ida_mcp.Jsonrpc.Replies.{MethodsContained, Returns, dispatch-Returns, reply-id}
use ida_mcp.Mcp.Access.Rules.{denial-none_iff, mem-listed_tools, auth_ok_iff}
use ida_mcp.Mcp.Annotation.{int_type, coerce_scalar, json_type_for, unwrap_annotation}
use ida_mcp.Mcp.Annotation.Typed.{json_type_of, coerce_scalar-typed}
use ida_mcp.Tests.Fixtures.{
  word, reader, patcher, secret, env, no_float, answers_ok, a_tool, server, trusted, stranger,
  state_of, idle,
}

-- Every method of the fixture is the one that answers "k".
methods_are :
    (name : Text) (f : Method)
    → lookup name (tools_registry server).methods ≡ some f
    → f ≡ answers_ok
unfolding lookup
methods_are name f h = ground (arith, h)

bodies_keep : BodiesKeepGate server
bodies_keep n name f h a st k = rw (methods_are name f h) k

pub is_hashable : IsHashable no_float env server idle.request_id
unfolding key_of
is_hashable h = cc h

trusted_may : MayCall server trusted (text patcher)
unfolding auth_ok get_tool_extension compare_digest text_eq
trusted_may = record {
  unsafe_needs = λ _. (refl, refl);
  group_needs = λ group h. absurd (cc h);
  profile_needs = refl;
}

stranger_may_not : ¬ MayCall server stranger (text patcher)
unfolding text_eq
stranger_may_not h = cc (h.unsafe_needs refl).0

gate-tools_call_example :
    (tools_call no_float env server trusted (str patcher) (obj end) idle).1.gate ≡ 1
gate-tools_call_example =
    gate-tools_call no_float env server bodies_keep trusted (str patcher) (obj end) idle is_hashable

unhashable_id-busy_example :
    let st =
      (tools_call no_float env server trusted (str patcher) (obj end) (state_of (arr nil))).1 in
    (tools_call no_float env server trusted
      (str patcher)
      (obj end)
      (record (serve no_float env server [] st) { request_id = null })).0
    ≡ ok (busy_result env (str patcher))
unfolding key_of serve
unhashable_id-busy_example =
    unhashable_id-busy no_float env server refl trusted (str patcher) (obj end) (text patcher)
      (state_of (arr nil)) refl trusted_may refl refl []
      (record { id = null; context = trusted; name = str patcher; arguments = obj end })
      (text patcher) refl trusted_may

tools_call-IsForgotten_example :
    IsForgotten
      (text (word b'1'))
      (tools_call no_float env server trusted (str patcher) (obj end) idle).1
unfolding key_of
tools_call-IsForgotten_example =
    tools_call-IsForgotten no_float env server (str (word b'1')) (text (word b'1')) (λ e. cc e) refl
      trusted (str patcher) (obj end) (text patcher) idle refl trusted_may refl (omega arith)

tools_call-refused_example :
    (r : CallResult) × (tools_call no_float env server stranger (str patcher) (obj end) idle
      ≡ (ok r, idle))
    × (r.is_error ≡ true)
unfolding key_of
tools_call-refused_example =
    tools_call-refused no_float env server stranger (str patcher) (obj end) (text patcher) idle refl
      stranger_may_not

-- The fixture's methods raise nothing.
pub methods_contained : MethodsContained (tools_registry server)
methods_contained name f h a st = rw (methods_are name f h) tt

denial-none_iff_example :
    (denial server trusted (text patcher) ≡ none) ↔ MayCall server trusted (text patcher)
denial-none_iff_example = denial-none_iff server trusted (text patcher)

mem-listed_tools_example :
    Mem (patcher, a_tool) (listed_tools server trusted)
    ↔ (Mem (patcher, a_tool) server.tools × MayCall server trusted (text patcher))
mem-listed_tools_example = mem-listed_tools server trusted patcher a_tool

auth_ok_iff_example :
    (auth_ok server trusted ≡ true) ↔ ((trusted.token ≡ some secret) × (is_ascii secret ≡ true))
auth_ok_iff_example = auth_ok_iff server trusted b't' [] refl

dispatch-Returns_example : Returns (dispatch env (tools_registry server) (raw (word b'x')) idle).0
dispatch-Returns_example =
    dispatch-Returns env (tools_registry server) methods_contained (raw (word b'x')) idle

-- A call of the tool "r" with the id null.
abbrev request : Fields
request = fields (
    (lit "jsonrpc", str (lit "2.0"))
    ∷ (lit "method", str reader)
    ∷ (lit "id", str (word b'7'))
    ∷ [])

reply_run :
    (dispatch env (tools_registry server) (parsed (obj request)) idle).0
    ≡ ok (some (result (str (word b'k')) (str (word b'7'))))
unfolding get lit text_eq is_version dispatch dispatch_value dispatch_method lookup call respond run
    key_of
reply_run = refl

reply-id_example : get (lit "id") request ≡ some (str (word b'7'))
unfolding get lit text_eq is_version dispatch key_of
reply-id_example =
    reply-id env (tools_registry server) request reader idle
      (result (str (word b'k')) (str (word b'7'))) refl refl reply_run

coerce_scalar-typed_example :
    (coerce_scalar no_float (str (word b'7')) int_type ≡ str (word b'7'))
    ⊎ (json_type_of (coerce_scalar no_float (str (word b'7')) int_type)
        ≡ json_type_for (unwrap_annotation int_type).0)
coerce_scalar-typed_example = coerce_scalar-typed no_float (str (word b'7')) int_type
