-- ===== src/Docs/Pages/Quickstart.antt =====
-- The `quickstart` entry of `pages`, frontend/src/lib/docs.tsx.
use go_mcp_server.Base.{[], ◌∷◌, none, some, String, false}
use go_mcp_server.Docs.Types.{
  lead, heading, text, callout, connect, steps, str, element, fragment, nil, cons, step, Icon,
  Variant, Block, DocPage,
}
use go_mcp_server.Docs.Config.{client_example}

abbrev pub quickstart : String → DocPage
quickstart base = record {
  slug = "quickstart";
  group = "Get started";
  eyebrow = "Get started";
  title = "Quickstart";
  description = str "Run the server and connect your first MCP client in under a minute.";
  blocks =
      lead (
        fragment (
          cons (str "You need ") (
            cons (element "strong" (cons (str "Go 1.26+") nil)) (
              cons (str ", ") (
                cons (element "strong" (cons (str "Postgres + pgvector") nil)) (
                  cons (str " ") (
                    cons (str "(for the memory namespace), and an ") (
                      cons (element "strong" (cons (str "OpenAI API key") nil))
                        (cons (str " for embeddings.") nil)))))))))
      ∷ heading "run-the-server" "Run the server" (some Icon.rocket)
      ∷ steps (
          step "Configure your environment" (
            fragment (
              cons (str "Copy the example env and fill in ") (
                cons (element "code" (cons (str "DATABASE_URL") nil)) (
                  cons (str " and ") (
                    cons (element "code" (cons (str "OPENAI_API_KEY") nil))
                      (cons (str ".") nil))))))
          ∷ step "Apply the migration" (
              fragment (
                cons (str "Run ") (
                  cons (element "code" (cons (str "migrations/0001_memories.sql") nil))
                    (cons (str " against your pgvector database.") nil))))
          ∷ step "Mint an API key" (
              fragment (
                cons (element "code" (cons (str "make apikey") nil)) (
                  cons (str " inserts a key into ") (
                    cons (element "code" (cons (str "api_keys") nil)) (
                      cons
                        (str
                          " and prints it. Every namespace requires it, so do this before connecting a client.")
                        nil)))))
          ∷ step "Start it" (
              fragment (
                cons (str "The server listens on ") (
                  cons (element "code" (cons (str ":8080") nil)) (
                    cons (str " (override with ")
                      (cons (element "code" (cons (str "PORT") nil)) (cons (str ").") nil))))))
          ∷ [])
      ∷ Block.code (some "bash") (some "terminal")
          "cp .env.example .env\n# fill in DATABASE_URL + OPENAI_API_KEY\nmake migrate\nmake apikey          # prints mcp_<32 hex> — use it below\nmake run"
      ∷ callout (some Variant.info) (some "DB-backed only for memory") (
          fragment (
            cons (str "The server refuses to start without ") (
              cons (element "code" (cons (str "DATABASE_URL") nil)) (
                cons
                  (str
                    " because the memory namespace requires it. The skills and event namespaces have no hard startup dependency.")
                  nil))))
      ∷ heading "point-a-client" "Point a client at it" (some Icon.compass)
      ∷ text (
          fragment (
            cons (str "Give your MCP client a namespace URL, and the key from ") (
              cons (element "code" (cons (str "make apikey") nil)) (
                cons (str " as the ") (
                  cons (element "code" (cons (str "X-API-Key") nil))
                    (cons (str " header on every entry:") nil))))))
      ∷ connect ("memory" ∷ "skills" ∷ "gsc" ∷ "producthunt" ∷ "event" ∷ [])
      ∷ Block.code (some "json") (some "mcp.json") (client_example base)
      ∷ callout (some Variant.warning) (some "Behind a tunnel?") (
          fragment (
            cons (str "Set ") (
              cons (element "code" (cons (str "MCP_ALLOW_EXTERNAL_HOST=true") nil)) (
                cons
                  (str
                    " when serving through ngrok or a reverse proxy. The transport’s DNS-rebinding protection rejects loopback requests carrying a non-loopback ")
                  (cons (element "code" (cons (str "Host") nil))
                    (cons (str " ") (cons (str "header otherwise.") nil)))))))
      ∷ [];
  wip = false;
  wip_icon = none;
  wip_features = [];
}
