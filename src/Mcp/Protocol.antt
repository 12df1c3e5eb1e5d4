-- ===== src/Mcp/Protocol.antt =====
-- The protocol's own methods (mcp.py: _mcp_initialize, _generate_tool_schema, _mcp_notifications_cancelled,
-- _mcp_resources_list, _mcp_resources_read, _mcp_prompts_list, _mcp_prompts_get). The defaults of
-- parameters are JSON values.
pub mod Resources
use ida_mcp.Prelude.{
  ℕ, zero, Bool, true, false, not, ◌&&◌, ◌||◌, Option, none, some, inl, inr, List, [], ◌∷◌, ◌++◌,
  map, keep, if◌then◌else◌, ◌==◌, contains, nat_eq, text_eq,
}
use ida_mcp.Prelude.Int.{minus, pos}
use ida_mcp.Prelude.Dict.{Dict, lookup}
use ida_mcp.Text.{Text, lit, strip, starts_with, is_empty}
use ida_mcp.Json.{
  Value, null, bool, int, float, str, arr, obj, Items, nil, dyadic, Fields, fields, entries, end,
  items, get, is_null,
}
use ida_mcp.Exec.{Raised, rpc_error, Result, ok, err, Exec, ◌>>=◌, ◌>>◌, pure, raise}
use ida_mcp.State.{State}
use ida_mcp.Jsonrpc.{Env, Method, Args, no_args, keywords, type_error, cancel_request}
use ida_mcp.Mcp.Annotation.{Annotation, str_type, unwrap_annotation, json_type_for}
use ida_mcp.Mcp.Server.{Parameter, Tool}

-- A resource: what the decorator keeps of the function, and the function.
pub record Resource : Type 0 where
  pub uri : Option Text
  pub name : Text
  pub doc : Text
  pub mime : Option Text
  pub body : Exec State Value

pub record Prompt : Type 0 where
  pub parameters : List Parameter
  pub doc : Text
  pub body : Method

abbrev dict : List (Text × Value) → Value
dict d = obj (fields d)

abbrev any_of {ℓ} : {A : Type ℓ} → List A → Bool
any_of [] = false
any_of (x ∷ xs) = true

abbrev pub or_json : Option Text → Text
or_json none = lit "application/json"
or_json (some m) = m

-- _mcp_initialize: resources and prompts are advertised only where there are some.
unfoldable pub initialize : Text → Text → List Resource → Dict Text Prompt → Value → Value
initialize name version resources prompts protocol_version =
    let prompt_caps = if any_of prompts then (lit "prompts", dict []) ∷ [] else [] in
    let resource_caps =
      if any_of resources
      then (
        lit "resources",
        dict ((lit "subscribe", bool false) ∷ (lit "listChanged", bool false) ∷ []),
      )
        ∷ prompt_caps
      else prompt_caps in
    dict (
      (lit "protocolVersion", protocol_version)
      ∷ (lit "capabilities", dict ((lit "tools", dict []) ∷ resource_caps))
      ∷ (lit "serverInfo", dict ((lit "name", str name) ∷ (lit "version", str version) ∷ []))
      ∷ [])

-- A parameter's property. A parameter with no annotation is a string.
abbrev annotation_of : Parameter → Annotation
annotation_of p = elim p.annotation [ none ↦ str_type | some a ↦ a ]

-- _json_safe_default
abbrev is_scalar : Value → Bool
is_scalar (arr vs) = false
is_scalar (obj fs) = false
is_scalar v = true

unfoldable pub property_of : Parameter → Value
property_of p =
    let (inner, enum, desc) = unwrap_annotation (annotation_of p) in
    let default : List (Text × Value) = elim p.default [
      | none ↦ []
      | some v ↦ if is_scalar v then (lit "default", v) ∷ [] else []
    ] in
    let allowed : List (Text × Value) = elim enum [
      | none ↦ default
      | some vs ↦ (lit "enum", arr (items vs)) ∷ default
    ] in
    let described : List (Text × Value) = elim desc [
      | none ↦ allowed
      | some t ↦ if is_empty t then allowed else (lit "description", str t) ∷ allowed
    ] in
    dict ((lit "type", str (json_type_for inner)) ∷ described)

unfoldable pub shown : List Parameter → List Parameter
shown ps = keep (λ p. not (p.name == lit "_meta")) ps

unfoldable pub is_required : Parameter → Bool
is_required p = elim p.default [ none ↦ true | some v ↦ false ]

unfoldable pub required_names : List Parameter → List Text
unfolding shown is_required
required_names ps = map (λ p. p.name) (keep is_required (shown ps))

-- _generate_tool_schema
unfoldable pub tool_schema : Text → Tool → Value
unfolding property_of required_names
tool_schema name t =
    let props = dict (map (λ p. (p.name, property_of p)) (shown t.parameters)) in
    let required = required_names t.parameters in
    let listed : List (Text × Value) =
      if any_of required then (lit "required", arr (items (map str required))) ∷ [] else [] in
    dict (
      (lit "name", str name)
      ∷ (lit "description", str (strip t.doc))
      ∷ (
        lit "inputSchema",
        dict ((lit "type", str (lit "object")) ∷ (lit "properties", props) ∷ listed),
      )
      ∷ [])

-- _mcp_notifications_cancelled
unfoldable pub notifications_cancelled : Value → Exec State Unit
unfolding cancel_request
notifications_cancelled null = pure tt
notifications_cancelled request_id = cancel_request request_id >> pure tt

-- _mcp_resources_list
unfoldable pub has_uri : Resource → Bool
has_uri r = elim r.uri [ none ↦ false | some u ↦ not (is_empty u) ]

unfoldable pub list_resources : List Resource → List Resource
unfolding has_uri
list_resources rs = keep has_uri rs

-- getattr(func, "__resource_uri__", None) == uri
unfoldable pub has_that_uri : Value → Resource → Bool
has_that_uri (str u) r = elim r.uri [ none ↦ false | some t ↦ t == u ]
has_that_uri null r = elim r.uri [ none ↦ true | some t ↦ false ]
has_that_uri _ r = false

unfoldable pub find_resource : Value → List Resource → Option Resource
unfolding has_that_uri
find_resource uri [] = none
find_resource uri (r ∷ rs) =
    let rest = find_resource uri rs in if has_that_uri uri r then some r else rest

module _ (env : Env) where
  text_of : Value → Text
  text_of (str t) = t
  text_of v = env.dumps_spaced v

  -- A text that is no JSON object or array is plain text, where the resource does not name its type.
  mime_of : Option Text → Text → Text
  mime_of (some m) t = m
  mime_of none t = elim (env.loads t) [
    | inl v ↦ elim v [
      | null ↦ lit "text/plain"
      | bool b ↦ lit "text/plain"
      | int i ↦ lit "text/plain"
      | float f ↦ lit "text/plain"
      | str s ↦ lit "text/plain"
      | arr vs ↦ lit "application/json"
      | obj fs ↦ lit "application/json"
    ]
    | inr reason ↦ lit "text/plain"
  ]

  pub contents_of : Value → Resource → Value → Value
  unfolding text_of mime_of
  contents_of uri r v = dict (
      (
        lit "contents",
        arr (
            items (
              dict (
                (lit "uri", uri)
                ∷ (lit "mimeType", str (mime_of r.mime (text_of v)))
                ∷ (lit "text", str (text_of v))
                ∷ [])
              ∷ [])),
      )
      ∷ [])

  -- _mcp_resources_read
  unfoldable pub read_resource : List Resource → Value → Exec State Value
  unfolding contents_of
  read_resource rs uri = elim (find_resource uri rs) [
    | none ↦ raise (rpc_error (minus 32602) (lit "Unknown resource: " ++ env.to_str uri) none)
    | some r ↦ do v ← r.body; pure (contents_of uri r v)
  ]

  user_message : Text → Value
  user_message t = arr (
      items (
        dict (
          (lit "role", str (lit "user"))
          ∷ (lit "content", dict ((lit "type", str (lit "text")) ∷ (lit "text", str t) ∷ []))
          ∷ [])
        ∷ []))

  messages_of : Value → Value
  unfolding user_message
  messages_of (str t) = user_message t
  messages_of (arr vs) = arr vs
  messages_of v = user_message (env.dumps_spaced v)

  described : Text → Value → Value
  described doc messages =
      dict ((lit "description", str (strip doc)) ∷ (lit "messages", messages) ∷ [])

  -- What becomes of a prompt's result.
  pub shape_prompt : Text → Value → Value
  unfolding messages_of described
  shape_prompt doc (obj fs) = elim (get (lit "messages") fs) [
    | some m ↦ obj fs
    | none ↦ described doc (messages_of (obj fs))
  ]
  shape_prompt doc v = described doc (messages_of v)

  -- arguments or {}, as keyword arguments; none: TypeError
  pub prompt_arguments : Value → Option Fields
  prompt_arguments (obj fs) = some fs
  prompt_arguments null = some end
  prompt_arguments (bool false) = some end
  prompt_arguments (int (pos zero)) = some end
  prompt_arguments (float (dyadic (pos zero) e)) = some end
  prompt_arguments (str []) = some end
  prompt_arguments (arr nil) = some end
  prompt_arguments _ = none

  -- _mcp_prompts_get
  unfoldable pub get_prompt : Dict Text Prompt → Text → Value → Exec State Value
  unfolding shape_prompt prompt_arguments
  get_prompt prompts name arguments = elim (lookup name prompts) [
    | none ↦ raise (rpc_error (minus 32602) (lit "Unknown prompt: " ++ name) none)
    | some p ↦ elim (prompt_arguments arguments) [
      | none ↦ raise (type_error (lit "argument after ** must be a mapping"))
      | some fs ↦ do v ← p.body (keywords fs); pure (shape_prompt p.doc v)
    ]
  ]
