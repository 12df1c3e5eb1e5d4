-- ===== src/Mcp/Server.antt =====
-- What does not change while a server runs, and what one HTTP request brings (mcp.py: the fields
-- of McpServer, and the thread-locals of _parse_request_flags).
use ida_mcp.Prelude.{ℕ, Bool, Option, List}
use ida_mcp.Prelude.Dict.{Dict}
use ida_mcp.Text.{Text}
use ida_mcp.Json.{Value}
use ida_mcp.Jsonrpc.{Method}
use ida_mcp.Mcp.Annotation.{Annotation}

-- One entry of inspect.signature(func).parameters, with the type hint of the parameter.
pub record Parameter : Type 0 where
  pub name : Text
  pub annotation : Option Annotation
  pub default : Option Value  -- none: the parameter is required

pub record Tool : Type 0 where
  pub body : Method
  pub parameters : List Parameter
  pub doc : Text

pub record Server : Type 0 where
  pub tools : Dict Text Tool
  pub unsafe_tools : List Text
  pub extensions_registry : Dict Text (List Text)
  pub auth_token : Option Text
  pub max_output_chars : ℕ
  pub max_concurrent_tools : Option ℕ
  pub audit_path : Option Text

pub record Context : Type 0 where
  pub unsafe_requested : Bool  -- _unsafe_per_thread.allowed
  pub groups : List Text  -- _request_extensions.groups
  pub token : Option Text  -- _request_auth.token
  pub profile_name : Option Text  -- _request_profile.current
  pub profile_set : Option (List Text)
