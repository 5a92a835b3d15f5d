-- ===== src/Docs/Nav.antt =====
-- `nav` and `topNav` of frontend/src/lib/docs.tsx.
use go_mcp_server.Base.{String, List, [], ◌∷◌, Option, none, some}
use go_mcp_server.Docs.Types.{NavGroup, NavItem}

abbrev entry : String → String → Option String → NavItem
entry slug label badge = record { slug = slug; label = label; badge = badge }

abbrev group : String → List NavItem → NavGroup
group title items = record { title = title; items = items }

abbrev pub nav : List NavGroup
nav =
    group "Get started" (
      entry "overview" "Overview" none
      ∷ entry "quickstart" "Quickstart" none
      ∷ entry "authentication" "Authentication" none
      ∷ entry "keys" "API keys" none
      ∷ [])
    ∷ group "MCP Servers" (
        entry "memory" "Memory" none
        ∷ entry "skills" "Skills" none
        ∷ entry "gsc" "Search Console" none
        ∷ entry "producthunt" "Product Hunt" none
        ∷ entry "event" "Event" none
        ∷ [])
    ∷ group "Relivo Platform" (
        entry "platform" "Orchestration" (some "Soon")
        ∷ entry "agents" "Agents" (some "Soon")
        ∷ entry "workflows" "Workflows" (some "Soon")
        ∷ entry "deployments" "Deployments" (some "Soon")
        ∷ [])
    ∷ group "Reference" (entry "architecture" "Architecture" none ∷ [])
    ∷ []

-- slug and label
abbrev pub top_nav : List (String × String)
top_nav =
    ("overview", "Overview")
    ∷ ("memory", "Memory")
    ∷ ("skills", "Skills")
    ∷ ("architecture", "Reference")
    ∷ []
