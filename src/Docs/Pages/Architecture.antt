-- ===== src/Docs/Pages/Architecture.antt =====
-- The `architecture` entry of `pages`, frontend/src/lib/docs.tsx.
use go_mcp_server.Base.{[], ◌∷◌, none, some, false}
use go_mcp_server.Docs.Types.{
  lead, heading, text, callout, steps, diagram, str, element, fragment, nil, cons, step, Icon,
  Variant, Diagram, Block, DocPage,
}

abbrev pub architecture : DocPage
architecture = record {
  slug = "architecture";
  group = "Reference";
  eyebrow = "Reference";
  title = "Architecture";
  description =
      str "How the namespaces are wired onto one mux, and why adding one never touches main.go.";
  blocks =
      lead (
        fragment (
          cons (str "Namespaces ") (
            cons (element "strong" (cons (str "self-register") nil)) (
              cons (str " through") (
                cons (str " ") (
                  cons (element "code" (cons (str "internal/mcpx") nil)) (
                    cons (str ". Each package calls ") (
                      cons (element "code" (cons (str "mcpx.Register") nil)) (
                        cons (str " ") (
                          cons (str "from its ") (
                            cons (element "code" (cons (str "init()") nil)) (
                              cons
                                (str
                                  "; the mux mounts every registered namespace on the next start.")
                                nil))))))))))))
      ∷ heading "request-lifecycle" "Request lifecycle" (some Icon.waypoints)
      ∷ text (
          fragment (
            cons
              (str
                "Every request passes global middleware — panic recovery, then logging — hits the stdlib mux, and is admitted by the auth that belongs to ")
              (cons (element "em" (cons (str "that route") nil)) (
                cons (str ": ") (
                  cons (element "code" (cons (str "X-API-Key") nil)) (
                    cons
                      (str
                        " for the MCP namespaces, Clerk for the dashboard’s key API, nothing for the liveness probe.")
                      nil))))))
      ∷ diagram Diagram.request
      ∷ heading "self-registration" "Self-registration" (some Icon.workflow)
      ∷ text (
          fragment (
            cons (str "Each package calls ") (
              cons (element "code" (cons (str "mcpx.Register") nil)) (
                cons (str " from its") (
                  cons (str " ") (
                    cons (element "code" (cons (str "init()") nil)) (
                      cons (str ", so importing it is enough to enroll the namespace.") (
                        cons (str " ") (
                          cons (element "code" (cons (str "mcpx.Handler") nil)) (
                            cons (str " then builds every registered server,") (
                              cons (str " ") (
                                cons (element "strong" (cons (str "failing fast") nil)) (
                                  cons
                                    (str
                                      " if any can’t — rather than mounting a half-working server that only breaks on the first tool call.")
                                    nil)))))))))))))
      ∷ diagram Diagram.register
      ∷ heading "layout" "Layout" (some Icon.layers)
      ∷ Block.code (some "text") (some "internal/")
          "cmd/server/main.go     # config, graceful shutdown\ninternal/\n  mcpx/                # registry, Handler(), Chain()\n  memory/              # per-user memories, hybrid RAG (pg + pgvector)\n  skills/              # skills_find agent + skills_download + web tools\n  gsc/                 # Google Search Console (analytics, inspection, sitemaps)\n  producthunt/         # Product Hunt v2 GraphQL API\n  event/               # Kafka publish/consume + topic admin (Confluent Cloud)"
      ∷ heading "adding" "Adding a namespace" (some Icon.wrench)
      ∷ steps (
          step "Create the package" (
            fragment (
              cons (str "Add ") (
                cons (element "code" (cons (str "internal/<name>/register.go") nil)) (
                  cons (str " that calls ") (
                    cons (element "code" (cons (str "mcpx.Register") nil)) (
                      cons (str " from ")
                        (cons (element "code" (cons (str "init()") nil)) (cons (str ".") nil))))))))
          ∷ step "Blank-import it" (
              fragment (
                cons (str "Add the package to ") (
                  cons (element "code" (cons (str "cmd/server/main.go") nil))
                    (cons (str " imports. The mux picks it up on the next start.") nil))))
          ∷ [])
      ∷ callout (some Variant.tip) (some "One boundary") (
          fragment (
            cons (str "Router is stdlib ") (
              cons (element "code" (cons (str "net/http") nil)) (
                cons (str "; a domain never reaches across another domain except through ")
                  (cons (element "code" (cons (str "internal/mcpx") nil)) (cons (str ".") nil))))))
      ∷ [];
  wip = false;
  wip_icon = none;
  wip_features = [];
}
