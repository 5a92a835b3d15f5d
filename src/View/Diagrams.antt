-- ===== src/View/Diagrams.antt =====
-- frontend/src/components/docs/architecture-diagram.tsx.
use go_mcp_server.Base.{String, List, [], ◌∷◌, Option, none, some, map}
use go_mcp_server.Docs.Types.{Diagram, request, register}
use go_mcp_server.View.{Dom, text, el, icon, code_of, when_text, prop}

-- `Node`; the tone is kept, and the typeface is not.
abbrev pub box : String → String → String → Dom
box tone title sub =
    el "div" (prop "tone" tone ∷ [])
      (el "div" [] (text title ∷ []) ∷ when_text (some sub) (λ t. el "div" [] (text t ∷ [])))

-- `Down`
abbrev pub down : Option String → Dom
down label = el "div" [] (icon "ArrowDown" ∷ when_text label (λ t. el "span" [] (text t ∷ [])))

-- `Pill`
abbrev pub pill : String → Dom
pill t = el "span" [] (text t ∷ [])

abbrev wide : Dom → Dom
wide d = el "div" [] (d ∷ [])

-- `RequestFlow`
abbrev pub request_flow : Dom
request_flow = el "div" [] (
    el "div" [] (
      box "default" "MCP client" "sends X-API-Key header"
      ∷ down none
      ∷ box "default" "Recover" "panic → 500"
      ∷ down none
      ∷ box "default" "LogRequests" "logs arrival + completion"
      ∷ down none
      ∷ box "muted" "net/http mux" "match route"
      ∷ [])
    ∷ el "div" [] (
        el "div" [] (
          pill "GET /healthz"
          ∷ down none
          ∷ wide (box "target" "200 ok" "no auth — liveness only")
          ∷ [])
        ∷ el "div" [] (
            pill "/*/mcp"
            ∷ down none
            ∷ wide (box "auth" "RequireAPIKey" "key in api_keys? else 401")
            ∷ down none
            ∷ wide (box "target" "5 namespaces" "memory · skills · gsc · producthunt · event")
            ∷ [])
        ∷ el "div" [] (
            pill "/api/keys"
            ∷ down none
            ∷ wide (box "auth" "Clerk RequireUser" "signed-in human? else 401")
            ∷ down none
            ∷ wide (box "target" "keysapi" "list · create · delete (owner-scoped)")
            ∷ [])
        ∷ [])
    ∷ el "p" [] (
        text "Admission is enforced "
        ∷ el "strong" [] (text "per route" ∷ [])
        ∷ text ", not globally — so a namespace can’t forget it, and"
        ∷ text " "
        ∷ code_of "/healthz"
        ∷ text " never needs a credential. "
        ∷ el "strong" [] (text "memory" ∷ [])
        ∷ text " also resolves the same key to an "
        ∷ code_of "api_key_id"
        ∷ text " "
        ∷ text "to scope every row — identity, not admission."
        ∷ [])
    ∷ [])

abbrev packages : List String
packages = "memory" ∷ "skills" ∷ "gsc" ∷ "producthunt" ∷ "event" ∷ []

-- `RegisterFlow`
abbrev pub register_flow : Dom
register_flow = el "div" [] (
    el "div" [] (text "package init()" ∷ [])
    ∷ el "div" [] (map pill packages)
    ∷ el "div" [] (
        down (some "mcpx.Register(ns)")
        ∷ box "default" "mcpx registry" "collects every self-registered namespace"
        ∷ down none
        ∷ box "default" "mcpx.Handler(opts)" "cmd/server/main.go calls this once"
        ∷ down none
        ∷ box "default" "ns.Server(deps)" "build each server — fail fast on bad config"
        ∷ down none
        ∷ box "default" "mux.Handle(path, RequireAPIKey(server))" "mounted over Streamable HTTP"
        ∷ [])
    ∷ el "p" [] (
        text "Adding a namespace is a new package plus a blank import —"
        ∷ text " "
        ∷ code_of "main.go"
        ∷ text " never enumerates them."
        ∷ [])
    ∷ [])

-- `ArchitectureDiagram`
abbrev pub architecture_diagram : Diagram → Dom
architecture_diagram request = request_flow
architecture_diagram register = register_flow
