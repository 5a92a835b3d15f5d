-- ===== src/Mcp.antt =====
-- frontend/src/lib/mcp.ts: the base URL of the MCP server and the URL of one of its routes.
-- `process.env.NEXT_PUBLIC_MCP_BASE_URL` is the parameter `env`, absent or a text.
pub mod Laws
use mathlib.Core.Option.{get_or}
use go_mcp_server.Base.{String, ◌<>◌, Char, code, Bool, Option, nat_eq, if◌then◌else◌}
use go_mcp_server.Base.{begins_with, drop_end}

abbrev pub is_slash : Char → Bool
is_slash c = nat_eq (code c) b'/'

-- `.replace(/\/+$/, "")`
abbrev pub strip_slashes : String → String
strip_slashes = drop_end is_slash

abbrev pub default_base_url : String
default_base_url = "http://localhost:8080"

-- `MCP_BASE_URL`
unfoldable pub mcp_base_url : Option String → String
mcp_base_url env = strip_slashes (get_or env default_base_url)

-- `base` is `MCP_BASE_URL`.
unfoldable pub mcp_url : String → String → String
mcp_url base path = base <> (if begins_with path "/" then path else "/" <> path)
