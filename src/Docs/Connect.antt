-- ===== src/Docs/Connect.antt =====
-- frontend/src/components/docs/connect.tsx: the cards with the connection URLs of some servers.
pub mod Laws
pub mod Configs
use go_mcp_server.Base.{String, ◌<>◌, List, [], ◌∷◌, none, some}
use go_mcp_server.Mcp.{mcp_url}
use go_mcp_server.Docs.Types.{ServerDoc}
use go_mcp_server.Docs.Servers.{find_server}

pub record UrlCard : Type 0 where
  pub name : String
  pub url : String
  -- the toast of its copy button
  pub on_copied : String

abbrev pub url_card : String → ServerDoc → UrlCard
url_card base s = record {
  name = s.name;
  url = mcp_url base s.path;
  on_copied = s.name <> " URL copied";
}

-- `if (!s) return null`: an unknown key has no card.
unfoldable pub connect_cards : String → List String → List UrlCard
connect_cards base [] = []
connect_cards base (key ∷ keys) = elim (find_server key) [
  | none ↦ connect_cards base keys
  | some s ↦ url_card base s ∷ connect_cards base keys
]
