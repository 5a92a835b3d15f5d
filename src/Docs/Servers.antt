-- ===== src/Docs/Servers.antt =====
-- `servers` and `serverList` of frontend/src/lib/docs.tsx.
pub mod Memory
pub mod Skills
pub mod Gsc
pub mod Producthunt
pub mod Event
use go_mcp_server.Base.{String, List, [], ◌∷◌, Option, map, lookup}
use go_mcp_server.Docs.Types.{ServerDoc}
pub use Memory.{memory}
pub use Skills.{skills}
pub use Gsc.{gsc}
pub use Producthunt.{producthunt}
pub use Event.{event}

abbrev pub servers : List (String × ServerDoc)
servers =
    ("memory", memory)
    ∷ ("skills", skills)
    ∷ ("gsc", gsc)
    ∷ ("producthunt", producthunt)
    ∷ ("event", event)
    ∷ []

-- `Object.values(servers)`
abbrev pub server_list : List ServerDoc
server_list = map (λ (_, s). s) servers

-- `servers[key]`, for a key that is no property of `Object.prototype`
abbrev pub find_server : String → Option ServerDoc
find_server key = lookup key servers
