-- ===== src/Docs/Pages/Overview.antt =====
-- The `overview` entry of `pages`, frontend/src/lib/docs.tsx.
use go_mcp_server.Base.{[], ◌∷◌, none, some, String, false}
use go_mcp_server.Docs.Types.{
  lead, heading, text, callout, connect, cards, str, element, fragment, nil, cons, card, Icon,
  Variant, Block, DocPage,
}
use go_mcp_server.Docs.Config.{client_example}

abbrev pub overview : String → DocPage
overview base = record {
  slug = "overview";
  group = "Get started";
  eyebrow = "Get started";
  title = "Relivo overview";
  description =
      str
        "Relivo is a multi-namespace Model Context Protocol server in Go: five independent MCP servers mounted on one HTTP mux over the Streamable HTTP transport.";
  blocks =
      lead (
        fragment (
          cons (element "strong" (cons (str "One server, five namespaces.") nil)) (
            cons (str " Relivo exposes") (
              cons (str " ") (
                cons (element "code" (cons (str "memory") nil)) (
                  cons (str ", ") (
                    cons (element "code" (cons (str "skills") nil)) (
                      cons (str ", ") (
                        cons (element "code" (cons (str "gsc") nil)) (
                          cons (str ",") (
                            cons (str " ") (
                              cons (element "code" (cons (str "producthunt") nil)) (
                                cons (str ", and ") (
                                  cons (element "code" (cons (str "event") nil)) (
                                    cons (str " as independent MCP servers on a single ") (
                                      cons (element "code" (cons (str "net/http") nil)) (
                                        cons
                                          (str
                                            " mux. Each namespace self-registers at startup via ")
                                          (cons (element "code" (cons (str "init()") nil)) (
                                            cons (str ", so adding one is a single package and ") (
                                              cons
                                                (element "code"
                                                  (cons (str "cmd/server/main.go") nil))
                                                (cons
                                                  (str
                                                    " never changes. Point any MCP client at a namespace route and its tools appear.")
                                                  nil)))))))))))))))))))))
      ∷ callout (some Variant.tip) (some "Pick a namespace") (
          fragment (
            cons
              (element "p" (
                cons (element "strong" (cons (str "Memory") nil)) (
                  cons
                    (str
                      " holds durable, per-user knowledge in a hybrid RAG store (semantic and keyword) over Postgres and pgvector that survives across sessions.")
                    nil)))
              (cons
                (element "p" (
                  cons (element "strong" (cons (str "Skills") nil)) (
                    cons
                      (str " finds and downloads Agent Skills live from GitHub. Nothing is cached.")
                      nil)))
                (cons
                  (element "p" (
                    cons (element "strong" (cons (str "Search Console") nil)) (
                      cons
                        (str
                          " exposes Google Search Console: property management, search-analytics reports, URL inspection, and sitemaps.")
                        nil)))
                  (cons
                    (element "p" (
                      cons (element "strong" (cons (str "Product Hunt") nil)) (
                        cons
                          (str
                            " wraps the Product Hunt v2 GraphQL API: posts, topics, collections, users, plus a raw GraphQL escape hatch.")
                          nil)))
                    (cons
                      (element "p" (
                        cons (element "strong" (cons (str "Event") nil)) (
                          cons
                            (str
                              " is a Kafka bridge over MCP: publish messages to a topic, consume them back through a durable consumer group, and manage topics on Confluent Cloud.")
                            nil)))
                      nil))))))
      ∷ heading "the-namespaces" "The namespaces" (some Icon.layers)
      ∷ text (
          fragment (
            cons
              (str
                "Each route below is a fully independent MCP server. A domain never reaches across another domain except through ")
              (cons (element "code" (cons (str "internal/mcpx") nil)) (cons (str ".") nil))))
      ∷ cards (
          card "Memory" "Store & recall per-user memories with hybrid RAG." "/doc/memory" Icon.brain
          ∷ card "Skills" "Find & download Agent Skills live from GitHub." "/doc/skills"
              Icon.sparkles
          ∷ card "Search Console" "GSC analytics, URL inspection & sitemaps." "/doc/gsc"
              Icon.line_chart
          ∷ card "Product Hunt" "Posts, topics, collections & raw GraphQL." "/doc/producthunt"
              Icon.rocket
          ∷ card "Event" "Publish & consume Kafka messages, and manage topics." "/doc/event"
              Icon.radio
          ∷ [])
      ∷ heading "connect" "Connect" (some Icon.compass)
      ∷ text (
          fragment (
            cons (str "Every URL below is derived from") (
              cons (str " ") (
                cons (element "code" (cons (str "NEXT_PUBLIC_MCP_BASE_URL") nil))
                  (cons (str ". Change it once and it updates everywhere in these docs.") nil)))))
      ∷ connect ("memory" ∷ "skills" ∷ "gsc" ∷ "producthunt" ∷ "event" ∷ [])
      ∷ text (fragment (cons (str "Drop the routes into any MCP client config:") nil))
      ∷ Block.code (some "json") (some "mcp.json") (client_example base)
      ∷ callout (some Variant.info) (some "Headers") (
          fragment (
            cons
              (element "p" (
                cons (str "Every namespace requires an ") (
                  cons (element "code" (cons (str "X-API-Key") nil)) (
                    cons (str " header carrying a registered key — add it to each server’s") (
                      cons (str " ") (
                        cons (element "code" (cons (str "headers") nil)) (
                          cons (str ". Requests without one are rejected with") (
                            cons (str " ") (
                              cons (element "code" (cons (str "401") nil))
                                (cons (str " before they reach a tool.") nil))))))))))
              (cons
                (element "p" (
                  cons (str "The ") (
                    cons (element "strong" (cons (str "memory") nil)) (
                      cons
                        (str
                          " namespace additionally uses the key as an identity: your memories are scoped to it and stay isolated from other callers’.")
                        nil))))
                nil)))
      ∷ [];
  wip = false;
  wip_icon = none;
  wip_features = [];
}
