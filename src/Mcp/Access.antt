-- ===== src/Mcp/Access.antt =====
-- Who may list and call a tool: the token, the unsafe flag, the extension groups and the profile.
pub mod Rules
use ida_mcp.Prelude.{
  ℕ, ◌≡◌, refl, Bool, true, false, not, ◌&&◌, Option, none, some, List, [], ◌∷◌, ltb, if◌then◌else◌,
  ◌==◌, contains, keep, nat_eq, text_eq,
}
use ida_mcp.Prelude.Dict.{Dict}
use ida_mcp.Text.{Text}
use ida_mcp.Json.{Key, text}
use ida_mcp.Mcp.Server.{Server, Context, Tool}

-- name in tools, for any hashable name
abbrev pub member : Key → List Text → Bool
member (text t) tools = contains tools t
member _ tools = false

unfoldable pub is_ascii : Text → Bool
is_ascii [] = true
is_ascii (c ∷ t) = ltb c 128 && is_ascii t

-- secrets.compare_digest; on a str outside ASCII it raises TypeError, which _auth_ok catches.
unfoldable pub compare_digest : Text → Text → Bool
unfolding is_ascii
compare_digest a b = is_ascii a && is_ascii b && (a == b)

tokens_match : Text → Option Text → Bool
unfolding compare_digest
tokens_match expected none = false
tokens_match expected (some []) = false
tokens_match expected (some (c ∷ t)) = compare_digest (c ∷ t) expected

expects : Option Text → Option Text → Bool
unfolding tokens_match
expects none provided = true
expects (some []) provided = true
expects (some (c ∷ t)) provided = tokens_match (c ∷ t) provided

unfoldable pub auth_ok : Server → Context → Bool
unfolding expects
auth_ok s x = expects s.auth_token x.token

unfoldable pub get_tool_extension : Dict Text (List Text) → Key → Option Text
get_tool_extension [] name = none
get_tool_extension ((group, tools) ∷ rest) name =
    if member name tools then some group else get_tool_extension rest name

abbrev pub in_profile : Option (List Text) → Key → Bool
in_profile none name = true
in_profile (some tools) name = member name tools

-- Why tools/call refuses a name before it looks at the tool.
pub data Denial : Type 0 where
  bad_token needs_unsafe not_in_profile : Denial
  needs_extension : Text → Denial

module _ (s : Server) (x : Context) where
  enabled_groups : List Text
  enabled_groups = if auth_ok s x then x.groups else []

  profile_denial : Key → Option Denial
  profile_denial name = if in_profile x.profile_set name then none else some not_in_profile

  extension_denial : Key → Option Text → Option Denial
  unfolding profile_denial enabled_groups
  extension_denial name none = profile_denial name
  extension_denial name (some group) =
      if contains enabled_groups group
      then profile_denial name
      else some (
          if contains x.groups group && not (auth_ok s x) then bad_token else needs_extension group)

  -- The gates of _mcp_tools_call, in their order.
  unfoldable pub denial : Key → Option Denial
  unfolding extension_denial
  denial name =
      if member name s.unsafe_tools && not (x.unsafe_requested && auth_ok s x)
      then some (if x.unsafe_requested && not (auth_ok s x) then bad_token else needs_unsafe)
      else extension_denial name (get_tool_extension s.extensions_registry name)

  extension_open : Option Text → Bool
  unfolding enabled_groups
  extension_open none = true
  extension_open (some group) = contains enabled_groups group

  -- The tests of one round of the loop of _mcp_tools_list.
  unfoldable pub is_listed : Text → Bool
  unfolding extension_open
  is_listed name =
      extension_open (get_tool_extension s.extensions_registry (text name))
      && not (member (text name) s.unsafe_tools && not (x.unsafe_requested && auth_ok s x))
      && in_profile x.profile_set (text name)

  -- The tools that _mcp_tools_list describes.
  unfoldable pub listed_tools : Dict Text Tool
  listed_tools = keep (λ (name, tool). is_listed name) s.tools

  -- What the token, the flags and the profile are meant to allow.
  pub record MayCall (name : Key) : Type 0 where
    pub unsafe_needs :
        member name s.unsafe_tools ≡ true → (x.unsafe_requested ≡ true) × (auth_ok s x ≡ true)
    pub group_needs :
        (group : Text)
        → get_tool_extension s.extensions_registry name ≡ some group
        → (contains x.groups group ≡ true) × (auth_ok s x ≡ true)
    pub profile_needs : in_profile x.profile_set name ≡ true
