-- ===== src/Docs/Pages.antt =====
-- `pages`, `serverPage` and `platformPage` of frontend/src/lib/docs.tsx. `base` is `MCP_BASE_URL`.
pub mod Overview
pub mod Quickstart
pub mod Authentication
pub mod Architecture
pub mod SkillSection
pub mod Walkthrough
use go_mcp_server.Base.{String, ◌<>◌, List, [], ◌∷◌, ◌++◌, Option, none, some, true, false}
use go_mcp_server.Base.{if◌then◌else◌, is_empty, to_lower}
use go_mcp_server.Docs.Types.{
  lead, heading, text, callout, connect, tools, Block, DocPage, Icon, Variant,
}
use go_mcp_server.Docs.Types.{
  Node, str, element, link, fragment, nil, cons, ServerDoc, ServerRequires, Feature,
}
use go_mcp_server.Docs.Servers
use go_mcp_server.Docs.Config.{server_config_json}
use Overview.{overview}
use Quickstart.{quickstart}
use Authentication.{authentication}
use Architecture.{architecture}
use SkillSection.{memory_skill_section}
use Walkthrough.{event_task_queue_walkthrough}

-- `t ? f(t) : []`: an absent or empty text adds no block.
abbrev pub when_text : Option String → (String → List Block) → List Block
when_text none f = []
when_text (some t) f = if is_empty t then [] else f t

abbrev pub note_callout : String → String → List Block
note_callout title t = callout (some Variant.tip) (some title) (element "p" (cons (str t) nil)) ∷ []

abbrev pub keys_link : Node
keys_link = link "/doc/keys" (cons (str "Keys") nil)

abbrev pub user_provided_note : Option String → Node
user_provided_note none = fragment nil
user_provided_note (some t) =
    if is_empty t
    then str t
    else element "p" (
        cons (str "This namespace also runs against ") (
          cons (element "strong" (cons (str "your own") nil))
            (cons (str " ") (cons (str t) (cons (str ", connected to your account.") nil)))))

abbrev pub requires_callout : Option ServerRequires → List Block
requires_callout none = []
requires_callout (some r) =
    callout (some Variant.info) (some "What you provide") (
      fragment (
        cons
          (element "p" (
            cons (str "Every request carries your ") (
              cons (element "code" (cons (str r.caller) nil)) (
                cons (str " — mint one on the") (
                  cons (str " ") (
                    cons keys_link (
                      cons (str " ")
                        (cons (str "page. That single key admits the whole server.") nil))))))))
          (cons (user_provided_note r.user_provided) nil)))
    ∷ []

-- `serverPage(key, description, extra)`, where `s` is `servers[key]`.
unfoldable pub server_page : String → String → ServerDoc → String → List Block → DocPage
server_page base key s description extra = record {
  slug = key;
  group = "MCP Servers";
  eyebrow = "MCP Server";
  title = s.name <> " server";
  description = str description;
  blocks =
      (lead (fragment (cons (str s.tagline) nil)) ∷ [])
      ++ (when_text s.example (note_callout "How it helps")
          ++ (heading "connect" "Connect" (some Icon.compass)
              ∷ text (
                  fragment (
                    cons (str "Point your MCP client at the ")
                      (cons (str (to_lower s.name)) (cons (str " route:") nil))))
              ∷ connect (key ∷ [])
              ∷ text (
                  fragment (
                    cons
                      (str
                        "Drop this into your client’s config and swap in the key you mint on the ")
                      (cons keys_link (cons (str " page:") nil))))
              ∷ Block.code (some "json") (some "mcp.json") (server_config_json base key s.path)
              ∷ (requires_callout s.requires
                  ++ (when_text s.note (note_callout "Good to know")
                      ++ (heading "tools" "Tools" (some Icon.wrench) ∷ tools key ∷ extra)))));
  wip = false;
  wip_icon = none;
  wip_features = [];
}

-- `platformPage(slug, opts)`
unfoldable pub platform_page : String → Icon → String → String → List Feature → DocPage
platform_page slug icon title description features = record {
  slug = slug;
  group = "Relivo Platform";
  eyebrow = "Relivo Platform";
  title = title;
  description = str description;
  blocks = [];
  wip = true;
  wip_icon = some icon;
  wip_features = features;
}

abbrev feature : String → String → Feature
feature title body = record { title = title; body = body }

unfoldable pub pages : String → List (String × DocPage)
unfolding server_page platform_page
pages base =
    ("overview", overview base)
    ∷ ("quickstart", quickstart base)
    ∷ ("authentication", authentication)
    ∷ (
      "memory",
      server_page base "memory" Servers.memory
          "Durable, per-user memory over hybrid RAG. Store facts once and recall them by meaning across sessions."
          memory_skill_section,
    )
    ∷ (
      "skills",
      server_page base "skills" Servers.skills "Locate and pull Agent Skills live from GitHub." [],
    )
    ∷ (
      "gsc",
      server_page base "gsc" Servers.gsc
          "Google Search Console over MCP: property management, search-analytics reporting, URL inspection, and sitemaps."
          [],
    )
    ∷ (
      "producthunt",
      server_page base "producthunt" Servers.producthunt
          "Product Hunt's v2 GraphQL API over MCP: browse posts, topics, collections, and users, or run raw GraphQL."
          [],
    )
    ∷ (
      "event",
      server_page base "event" Servers.event
          "A Kafka bridge over MCP: publish messages to a topic, consume them back through a durable consumer group, and manage topics on Confluent Cloud."
          event_task_queue_walkthrough,
    )
    ∷ (
      "platform",
      platform_page "platform" Icon.waypoints "Agent orchestration"
          "The Relivo app is where you compose agents, tools, and workflows into agentic pipelines visually, on top of the MCP servers documented here."
          (feature "Visual canvas"
              "Wire agents, tools, and control flow together on a node graph, with no glue code."
            ∷ feature "MCP-native"
                "Drop in Relivo's memory, skills, Search Console, and Product Hunt servers as first-class tools."
            ∷ feature "Run & observe"
                "Execute pipelines and trace every step, input, and output in one place."
            ∷ []),
    )
    ∷ (
      "agents",
      platform_page "agents" Icon.bot "Agents"
          "Define agents (model, system prompt, tool access, and guardrails) and compose them into higher-order agents."
          (feature "Configurable"
              "Pick the model, write the system prompt, and set limits per agent."
            ∷ feature "Scoped tools"
                "Grant each agent exactly the MCP tools its job needs, nothing more."
            ∷ feature "Sub-agents" "Let an agent delegate to other agents for multi-step reasoning."
            ∷ []),
    )
    ∷ (
      "workflows",
      platform_page "workflows" Icon.workflow "Workflows"
          "Chain agents and tools into multi-step workflows with branching, loops, and triggers."
          (feature "Multi-step flows"
              "Sequence agents and tools with conditional branches and loops."
            ∷ feature "Triggers" "Kick off runs on a schedule, a webhook, or on demand."
            ∷ feature "Observability"
                "Inspect each run end to end, including every step, retry, and payload."
            ∷ []),
    )
    ∷ (
      "deployments",
      platform_page "deployments" Icon.rocket "Deployments"
          "Promote a workflow to a hosted endpoint, version it, and roll changes across environments."
          (feature "Ship it" "Turn a workflow into a callable, hosted endpoint in a click."
            ∷ feature "Versioning" "Roll revisions forward and back with confidence."
            ∷ feature "Environments" "Keep dev and prod configuration cleanly separated."
            ∷ []),
    )
    ∷ ("architecture", architecture)
    ∷ []
