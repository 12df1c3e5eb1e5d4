-- ===== src/Mcp/Host.antt =====
-- Which Host and Origin headers are served (mcp.py: _parse_host_header to
-- _host_header_allowed_for_bind, McpServer._origin_allowed, McpServer.cors_localhost and
-- McpHttpRequestHandler._check_api_request). urlparse(origin).hostname is a parameter.
pub mod Named
pub mod Rebinding
use ida_mcp.Prelude.{
  ℕ, ◌-◌, ◌≡◌, refl, Bool, true, false, not, ◌&&◌, ◌||◌, Option, none, some, List, [], ◌∷◌, map,
  take, drop, if◌then◌else◌, ◌==◌, contains, nat_eq, text_eq,
}
use ida_mcp.Text.{Text, lit, strip, lower, find, count, starts_with, is_empty}

-- rsplit(":", 1)[0] of a text with one colon
unfoldable pub before_colon : Text → Text
before_colon [] = []
before_colon (c ∷ t) = let rest = before_colon t in if c == b':' then [] else c ∷ rest

-- header[1:header.find("]")] of a text that begins with "["
unfoldable pub bracketed : Text → Option Text
bracketed t = elim (find b']' t) [ none ↦ none | some e ↦ some (take (e - 1) (drop 1 t)) ]

unfoldable pub host_of : Text → Option Text
unfolding before_colon bracketed
host_of [] = none
host_of (c ∷ t) =
    if c == b'['
    then bracketed (c ∷ t)
    else some (if count b':' (c ∷ t) == 1 then before_colon (c ∷ t) else c ∷ t)

unfoldable pub parse_host_header : Option Text → Option Text
unfolding host_of
parse_host_header none = none
parse_host_header (some []) = none
parse_host_header (some (c ∷ t)) = host_of (strip (c ∷ t))

unfoldable pub loopback_names : List Text
loopback_names = map lit ("localhost" ∷ "127.0.0.1" ∷ "::1" ∷ [])

unfoldable pub is_loopback_host : Option Text → Bool
unfolding loopback_names
is_loopback_host none = false
is_loopback_host (some []) = false
is_loopback_host (some (c ∷ t)) = contains loopback_names (lower (strip (c ∷ t)))

unfoldable pub name_allowed : Text → Option Text → Bool
name_allowed bound_host none = false
name_allowed bound_host (some host_name) =
    if is_loopback_host (some bound_host) then is_loopback_host (some host_name) else true

unfoldable pub host_header_allowed_for_bind : Text → Option Text → Bool
unfolding name_allowed
host_header_allowed_for_bind bound_host none = true
host_header_allowed_for_bind bound_host (some h) =
    name_allowed bound_host (parse_host_header (some h))

-- McpServer.cors_allowed_origins: a function, or texts.
pub data Allowed : Type 0 where
  by_function : (Text → Bool) → Allowed
  by_list : List Text → Allowed

unfoldable pub origin_allowed : Allowed → Text → Bool
origin_allowed allowed [] = false
origin_allowed (by_function f) (c ∷ t) = f (c ∷ t)
origin_allowed (by_list origins) (c ∷ t) = contains origins (lit "*") || contains origins (c ∷ t)

-- McpServer.cors_localhost, the default
unfoldable pub cors_localhost : (Text → Option Text) → Text → Bool
unfolding loopback_names
cors_localhost hostname origin = elim (hostname origin) [
  | none ↦ false
  | some h ↦ contains loopback_names h
]

pub data Check : Type 0 where
  passed invalid_host invalid_origin : Check

-- The host is checked before the origin; a missing Origin header reads as the empty text.
unfoldable pub check_api_request : Allowed → Text → Option Text → Text → Check
check_api_request allowed bound_host host origin =
    if not (host_header_allowed_for_bind bound_host host)
    then invalid_host
    else if not (is_empty origin) && not (origin_allowed allowed origin)
    then invalid_origin
    else passed
