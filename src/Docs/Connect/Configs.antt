-- ===== src/Docs/Connect/Configs.antt =====
-- The JSON texts of the documentation: `clientExample` (`connectionConfig` on the landing page),
-- `serverConfigJson` and `taskEnvelope` of frontend/src/lib/docs.tsx, and the code blocks with them.
use go_mcp_server.Base.{
  String, ◌<>◌, List, [], ◌∷◌, ◌++◌, some, ◌≡◌, refl, sym, subst, All, ◌==◌, if◌then◌else◌,
}
use go_mcp_server.Json.{Json, field, end}
use go_mcp_server.Json.Read.{parse}
use go_mcp_server.Json.Read.RoundTrip.{parse-pretty}
use go_mcp_server.Docs.Types.{Block, DocPage}
use go_mcp_server.Docs.Config.{
  client_config, client_example, server_config_json, task_envelope, task_value, mcp_servers,
  http_entry,
}
use go_mcp_server.Docs.Servers.{servers}
use go_mcp_server.Docs.Pages.{pages}
use go_mcp_server.Docs.Connect.Laws.{entries_of}

-- The file that the documentation and the landing page tell a reader to save parses, for every base
-- URL, as a configuration with exactly one entry for each server of the table, under its key and with
-- the URL of its route.
pub client_example-parse :
    (base : String) → parse (client_example base) ≡ some (mcp_servers (entries_of base servers))
unfolding client_example
client_example-parse base = parse-pretty (client_config base)

-- The codes of the blocks in JSON.
abbrev pub json_codes : List Block → List String
json_codes [] = []
json_codes (Block.code (some lang) title code ∷ bs) =
    let rest = json_codes bs in if lang == "json" then code ∷ rest else rest
json_codes (_ ∷ bs) = json_codes bs

abbrev pub all_json_codes : List (String × DocPage) → List String
all_json_codes [] = []
all_json_codes ((slug, page) ∷ ps) = json_codes page.blocks ++ all_json_codes ps

all_json_codes-pages :
    (base : String)
    → all_json_codes (pages base)
      ≡ client_example base
        ∷ client_example base
        ∷ server_config_json base "memory" "/memory/mcp"
        ∷ server_config_json base "skills" "/skills/mcp"
        ∷ server_config_json base "gsc" "/gsc/mcp"
        ∷ server_config_json base "producthunt" "/producthunt/mcp"
        ∷ server_config_json base "event" "/event/mcp"
        ∷ task_envelope
        ∷ []
unfolding pages
all_json_codes-pages base = refl

abbrev pub Parses : String → Type 0
Parses code = (j : Json) × (parse code ≡ some j)

server_config_json-Parses : (base key path : String) → Parses (server_config_json base key path)
unfolding server_config_json
server_config_json-Parses base key path =
    let config = mcp_servers (field key (http_entry (base <> path)) end) in
    (config, parse-pretty config)

task_envelope-Parses : Parses task_envelope
unfolding task_envelope
task_envelope-Parses = (task_value, parse-pretty task_value)

-- Every code block of the documentation that is marked as JSON is valid JSON, for every base URL.
pub all_json_codes-Parses : (base : String) → All Parses (all_json_codes (pages base))
all_json_codes-Parses base =
    let example : Parses (client_example base) =
      (mcp_servers (entries_of base servers), client_example-parse base) in
    subst (All Parses) (sym (all_json_codes-pages base)) (
      example,
      (
        example,
        (
          server_config_json-Parses base "memory" "/memory/mcp",
          (
            server_config_json-Parses base "skills" "/skills/mcp",
            (
              server_config_json-Parses base "gsc" "/gsc/mcp",
              (
                server_config_json-Parses base "producthunt" "/producthunt/mcp",
                (server_config_json-Parses base "event" "/event/mcp", (task_envelope-Parses, tt)),
              ),
            ),
          ),
        ),
      ),
    )
