-- ===== src/Docs/Connect/Laws.antt =====
-- The cards, the copied Markdown and the client configurations show the same URLs.
use mathlib.Core.List.{map}
use go_mcp_server.Base.{String, ◌<>◌, List, [], ◌∷◌, some, true, ◌≡◌, refl, ap, All}
use go_mcp_server.Base.{begins_with, lookup-All, Option-cases, inl, inr}
use go_mcp_server.Mcp.{mcp_url}
use go_mcp_server.Json.{Fields, end, field}
use go_mcp_server.Docs.Types.{ServerDoc}
use go_mcp_server.Docs.Config.{client_config, mcp_servers, http_entry}
use go_mcp_server.Docs.Servers.{servers, find_server}
use go_mcp_server.Docs.Markdown.{connect_lines, server_line}
use go_mcp_server.Docs.Connect.{UrlCard, connect_cards}

servers-rooted : All (λ (_, s). begins_with s.path "/" ≡ true) servers
servers-rooted = (refl, (refl, (refl, (refl, (refl, tt)))))

-- Of a listed server the card shows the base URL with the route behind it.
pub mcp_url-path :
    (base key : String) {s : ServerDoc}
    → find_server key ≡ some s
    → mcp_url base s.path ≡ base <> s.path
unfolding mcp_url
mcp_url-path base key found =
    rw (lookup-All (λ _ s. begins_with s.path "/" ≡ true) key servers servers-rooted found)

abbrev pub markdown_line : UrlCard → String
markdown_line c = "- **" <> (c.name <> ("**: `" <> (c.url <> "`")))

-- For any keys, the cards and the copied Markdown show the same servers, in the same order, with
-- the same URLs.
pub connect_lines-map_cards :
    (base : String) (keys : List String)
    → connect_lines base keys ≡ map markdown_line (connect_cards base keys)
unfolding connect_cards
connect_lines-map_cards base [] = refl
connect_lines-map_cards base (key ∷ keys) = elim (Option-cases (find_server key)) [
  | inl unknown ↦ rw (unknown, connect_lines, connect_cards) (connect_lines-map_cards base keys)
  | inr (s, found) ↦
      rw (found, connect_lines, connect_cards, mcp_url-path base key found)
        (ap (λ ls. server_line base s ∷ ls) (connect_lines-map_cards base keys))
]

-- The entries of a client configuration for the servers of a table.
abbrev pub entries_of : String → List (String × ServerDoc) → Fields
entries_of base [] = end
entries_of base ((key, s) ∷ m) = field key (http_entry (base <> s.path)) (entries_of base m)

-- The client configuration, which is written out by hand, is the one that the table of servers
-- gives: every server is in it under its key, with the URL of its route, and nothing else is.
pub client_config-servers :
    (base : String) → client_config base ≡ mcp_servers (entries_of base servers)
client_config-servers base = refl
