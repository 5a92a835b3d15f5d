-- ===== src/View/Home.antt =====
-- The landing page, frontend/src/app/page.tsx.
use go_mcp_server.Base.{String, ◌<>◌, ℕ, ◌+◌, List, [], ◌∷◌, some, Bool, map, length, to_lower}
use go_mcp_server.Json.{decimal}
use go_mcp_server.Docs.Types.{ServerDoc}
use go_mcp_server.Docs.Config.{client_example}
use go_mcp_server.View.{Dom, text, el, id_is, prop, link_to, anchor_to, code_of, icon, icon_name}
use go_mcp_server.View.Site.{site}
use go_mcp_server.View.Blocks.{code_block}
use go_mcp_server.View.Bars.{landing_nav}

-- `serverList.reduce((n, s) => n + s.tools.length, 0)`, from a sum on
abbrev pub add_tools : ℕ → List ServerDoc → ℕ
add_tools n [] = n
add_tools n (s ∷ ss) = add_tools (n + length s.tools) ss

-- `toolCount`
unfoldable pub tool_count : List ServerDoc → ℕ
tool_count list = add_tools 0 list

pub record HomeFeature : Type 0 where
  pub mark : String
  pub title : String
  pub body : String

abbrev feature : String → String → String → HomeFeature
feature mark title body = record { mark = mark; title = title; body = body }

abbrev pub features : List HomeFeature
features =
    feature "Blocks" "Multi-namespace mux"
      "Five independent MCP servers on one endpoint. A domain never reaches across another except through internal/mcpx."
    ∷ feature "Plug" "Self-registering"
        "Add a namespace as a single package with an init(). cmd/server/main.go never changes; the mux picks it up on the next start."
    ∷ feature "Zap" "Streamable HTTP"
        "Built on the official MCP Go SDK's Streamable HTTP transport, over stdlib net/http with structured slog logging."
    ∷ feature "Database" "Hybrid RAG memory"
        "Durable, per-user recall by meaning and keyword over Postgres + pgvector. Store a fact once, retrieve it across sessions."
    ∷ feature "Sparkles" "Live Agent Skills"
        "Find and download Agent Skills straight from GitHub in real time. Nothing is cached; every call reflects live GitHub."
    ∷ feature "ShieldCheck" "Keyed by default"
        "Every namespace requires an X-API-Key before dispatch, and memory scopes each caller to their own rows — one caller can never read another's memories."
    ∷ []

abbrev pub add_namespace_snippet : String
add_namespace_snippet =
    "// internal/todo/register.go\npackage todo\n\nfunc init() { mcpx.Register(namespace{}) }\n\n// That's it. Blank-import the package in main.go\n// and the mux mounts /todo/mcp on the next start."

abbrev dot : Dom
dot = el "span" [] (text "·" ∷ [])

abbrev lamp : Dom
lamp = el "span" [] (el "span" [] [] ∷ el "span" [] [] ∷ [])

abbrev pub server_card : ServerDoc → Dom
server_card s = link_to ("/doc/" <> s.key) (
    el "div" [] (
      el "div" [] (icon (icon_name s.icon) ∷ [])
      ∷ el "Badge" [] (text (decimal (length s.tools)) ∷ text " tools" ∷ [])
      ∷ [])
    ∷ el "div" [] (text s.name ∷ code_of s.path ∷ [])
    ∷ el "p" [] (text s.tagline ∷ [])
    ∷ el "span" [] (text "Explore" ∷ icon "ArrowRight" ∷ [])
    ∷ [])

abbrev pub home_feature : HomeFeature → Dom
home_feature f =
    el "div" [] (icon f.mark ∷ el "h3" [] (text f.title ∷ []) ∷ el "p" [] (text f.body ∷ []) ∷ [])

-- `{serverList.length} namespaces · {toolCount} tools · …`
abbrev pub figures : List ServerDoc → Dom
figures list = el "div" [] (
    el "span" [] (text (decimal (length list)) ∷ text " namespaces" ∷ [])
    ∷ dot
    ∷ el "span" [] (text (decimal (tool_count list)) ∷ text " tools" ∷ [])
    ∷ dot
    ∷ el "span" [] (text "1 endpoint" ∷ [])
    ∷ dot
    ∷ el "span" [] (text site.go_version ∷ [])
    ∷ [])

abbrev pub hero : (String → String → String) → String → List ServerDoc → Dom
hero to_html base list = el "section" [] (
    el "div" [] []
    ∷ el "div" [] (
        link_to site.github (
          icon "Star"
          ∷ text "Open source · "
          ∷ text site.license
          ∷ text " licensed"
          ∷ icon "ArrowRight"
          ∷ [])
        ∷ el "h1" [] (text site.tagline ∷ [])
        ∷ el "p" [] (
            el "strong" [] (text site.full_name ∷ [])
            ∷ text " "
            ∷ text
                "is a multi-namespace Model Context Protocol server in Go. Point any MCP client at a route and its tools appear: memory, skills, Search Console, Product Hunt, and events, all behind one HTTP mux."
            ∷ [])
        ∷ el "div" [] (
            el "Button" []
              (link_to "/doc/overview" (text "Get started " ∷ icon "ArrowRight" ∷ []) ∷ [])
            ∷ el "Button" []
                (anchor_to site.github (icon "GitHubIcon" ∷ text " Star on GitHub" ∷ []) ∷ [])
            ∷ [])
        ∷ el "div" [] (
            anchor_to site.app (
              lamp
              ∷ text "Preview the Relivo app ("
              ∷ text (to_lower site.app_status)
              ∷ text ")"
              ∷ icon "ArrowRight"
              ∷ [])
            ∷ [])
        ∷ figures list
        ∷ el "div" []
            (code_block to_html (some "json") (some "mcp.json") (client_example base) ∷ [])
        ∷ [])
    ∷ [])

abbrev titled : String → String → Dom
titled title body = el "div" [] (el "h2" [] (text title ∷ []) ∷ el "p" [] (text body ∷ []) ∷ [])

abbrev pub namespaces_section : List ServerDoc → Dom
namespaces_section list = el "section" (id_is "namespaces" ∷ []) (
    el "div" [] (
      el "div" [] (
        el "h2" [] (text (decimal (length list)) ∷ text " servers, one endpoint" ∷ [])
        ∷ el "p" [] (
            text
              "Each namespace is a fully independent MCP server. Mount the ones you need and ignore the rest."
            ∷ [])
        ∷ [])
      ∷ el "div" [] (map server_card list)
      ∷ [])
    ∷ [])

abbrev pub features_section : Dom
features_section = el "section" (id_is "features" ∷ []) (
    el "div" [] (
      titled "Built to extend" "Opinionated where it counts, out of your way everywhere else."
      ∷ el "div" [] (map home_feature features)
      ∷ [])
    ∷ [])

abbrev pub add_section : (String → String → String) → Dom
add_section to_html = el "section" [] (
    el "div" [] (
      el "div" [] (
        el "h2" [] (text "Adding a namespace is one package" ∷ [])
        ∷ el "p" [] (
            text "Namespaces self-register through "
            ∷ code_of "internal/mcpx"
            ∷ text ". Create a package that calls "
            ∷ code_of "mcpx.Register"
            ∷ text " from its "
            ∷ code_of "init()"
            ∷ text
                ", blank-import it, and the mux mounts the new route on the next start. No wiring, no central registry to edit."
            ∷ [])
        ∷ el "Button" [] (
            link_to "/doc/architecture" (icon "BookOpen" ∷ text " Read the architecture" ∷ []) ∷ [])
        ∷ [])
      ∷ code_block to_html (some "go") (some "register.go") add_namespace_snippet
      ∷ [])
    ∷ [])

abbrev pub call_section : Dom
call_section = el "section" [] (
    el "div" [] (
      el "h2" [] (text "Point a client at it and go" ∷ [])
      ∷ el "p" [] (
          text "Free and open source. Clone the repo, run"
          ∷ text " "
          ∷ code_of "make run"
          ∷ text ", and connect your first MCP client in under a minute."
          ∷ [])
      ∷ el "div" [] (
          el "Button" []
            (link_to "/doc/quickstart" (text "Read the quickstart " ∷ icon "ArrowRight" ∷ []) ∷ [])
          ∷ el "Button" []
              (anchor_to site.github (icon "GitHubIcon" ∷ text " View source" ∷ []) ∷ [])
          ∷ [])
      ∷ [])
    ∷ [])

abbrev pub page_footer : Dom
page_footer = el "footer" [] (
    el "div" [] (
      el "div" [] (
        el "span" [] (text site.name ∷ [])
        ∷ dot
        ∷ text site.license
        ∷ text " licensed · Built with Go"
        ∷ [])
      ∷ el "div" [] (
          link_to "/doc/overview" (text "Docs" ∷ [])
          ∷ anchor_to site.app (text "App" ∷ el "span" (prop "title" site.app_status ∷ []) [] ∷ [])
          ∷ anchor_to site.github (icon "GitHubIcon" ∷ text " GitHub" ∷ [])
          ∷ [])
      ∷ [])
    ∷ [])

-- `Home`
unfoldable pub home : (String → String → String) → Bool → String → List ServerDoc → Dom
unfolding tool_count
home to_html mounted base list = el "div" [] (
    landing_nav mounted
    ∷ el "main" [] (
        hero to_html base list
        ∷ namespaces_section list
        ∷ features_section
        ∷ add_section to_html
        ∷ call_section
        ∷ [])
    ∷ page_footer
    ∷ [])
