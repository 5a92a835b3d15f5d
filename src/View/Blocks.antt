-- ===== src/View/Blocks.antt =====
-- `BlockRenderer` of frontend/src/components/docs/blocks.tsx and the components that it renders:
-- connect.tsx, api-key-callout.tsx, code-block.tsx, tool-list.tsx and skill-download.tsx beside it.
-- `signed_in` is `isSignedIn` of Clerk's `useUser`, `origin` the site's own origin, and `to_html` what
-- shiki's `codeToHtml` makes of a code in a grammar.
use mathlib.Core.Option.{get_or}
use go_mcp_server.Base.{
  String, ◌<>◌, ℕ, suc, List, [], ◌∷◌, ◌++◌, Option, none, some, Bool, map, ◌==◌, ◌||◌,
  if◌then◌else◌,
}
use go_mcp_server.Json.{decimal}
use go_mcp_server.Mcp.{mcp_url}
use go_mcp_server.Docs.Types.{
  Block, Variant, tip, info, warning, Card, Step, ServerDoc, ToolDoc, ToolParam, Node,
}
use go_mcp_server.Docs.Servers.{find_server}
use go_mcp_server.Docs.Skill.{stateful_skill, install_cmd, route}
use go_mcp_server.View.{
  Dom, text, el, id_is, prop, link_to, anchor_to, code_of, icon, icon_name, when_text, when,
  nothing, fragment, node_dom,
}
use go_mcp_server.View.Diagrams.{architecture_diagram}

-- `CopyButton`, by its properties.
abbrev pub copy_button : String → String → Dom
copy_button value on_copied =
    el "CopyButton" (prop "value" value ∷ prop "onCopied" on_copied ∷ []) []

-- `calloutStyles[variant].icon`
abbrev pub callout_icon : Variant → String
callout_icon tip = "Lightbulb"
callout_icon info = "Info"
callout_icon warning = "TriangleAlert"

-- `Callout`; an absent variant is `info`.
abbrev pub callout : Option Variant → Option String → Node → Dom
callout variant title content = el "div" [] (
    el "div" [] (
      icon (callout_icon (get_or variant info)) ∷ when_text title (λ t. el "span" [] (text t ∷ [])))
    ∷ el "div" [] (node_dom content ∷ [])
    ∷ [])

abbrev pub card_link : Card → Dom
card_link c = link_to c.href (
    icon (icon_name c.icon)
    ∷ el "div" [] (text c.title ∷ icon "ArrowRight" ∷ [])
    ∷ el "p" [] (text c.description ∷ [])
    ∷ [])

-- `CardGrid`
abbrev pub card_grid : List Card → Dom
card_grid items = el "div" [] (map card_link items)

-- The items from a number on.
abbrev pub step_items : ℕ → List Step → List Dom
step_items i [] = []
step_items i (s ∷ ss) =
    el "li" [] (
      el "span" [] (text (decimal (suc i)) ∷ [])
      ∷ el "div" [] (el "div" [] (text s.title ∷ []) ∷ el "div" [] (node_dom s.content ∷ []) ∷ [])
      ∷ [])
    ∷ step_items (suc i) ss

-- `Steps`
abbrev pub steps_list : List Step → Dom
steps_list items = el "ol" [] (step_items 0 items)

-- `grammar`
abbrev pub grammar : Option String → String
grammar none = "text"
grammar (some lang) =
    if lang == "bash" || lang == "sh" || lang == "shell"
    then "bash"
    else if lang == "json"
    then "json"
    else if lang == "go"
    then "go"
    else if lang == "ts" || lang == "tsx"
    then "tsx"
    else if lang == "js" || lang == "javascript"
    then "javascript"
    else "text"

-- `a ?? b`
abbrev pub first_of : Option String → String → String
first_of none other = other
first_of (some t) other = t

-- `CodeBlock`
abbrev pub code_block : (String → String → String) → Option String → Option String → String → Dom
code_block to_html lang title code = el "div" [] (
    el "div" [] (
      el "span" [] (text (first_of title (first_of lang "code")) ∷ [])
      ∷ copy_button code "Copied to clipboard"
      ∷ [])
    ∷ el "div" (prop "html" (to_html code (grammar lang)) ∷ []) []
    ∷ [])

-- `ApiKeyCallout`
abbrev pub api_key_callout : Bool → Dom
api_key_callout signed_in = el "div" [] (
    el "div" [] (icon "KeyRound" ∷ [])
    ∷ el "div" [] (
        el "div" [] (
          text
            (if signed_in then "Use your API key to connect" else "You need an API key to connect")
          ∷ [])
        ∷ el "p" [] (
            text (if signed_in then "Pass it as an " else "Every request must carry an ")
            ∷ code_of "X-API-Key"
            ∷ text (
                if signed_in
                then " header on every request. Create and manage keys in your dashboard."
                else " header. Sign in to create one.")
            ∷ [])
        ∷ [])
    ∷ (if signed_in
        then el "Button" []
            (link_to "/doc/keys" (text "Manage API keys" ∷ icon "ArrowRight" ∷ []) ∷ [])
        else el "Button" []
            (link_to "/sign-in" (text "Sign in to get your key" ∷ icon "ArrowRight" ∷ []) ∷ []))
    ∷ [])

abbrev pub url_row : String → ServerDoc → Dom
url_row base s = el "div" [] (
    el "div" [] (icon (icon_name s.icon) ∷ [])
    ∷ el "div" [] (el "div" [] (text s.name ∷ []) ∷ code_of (mcp_url base s.path) ∷ [])
    ∷ copy_button (mcp_url base s.path) (s.name <> " URL copied")
    ∷ [])

-- `if (!s) return null`
abbrev pub url_row_of : String → Option ServerDoc → Dom
url_row_of base none = nothing
url_row_of base (some s) = url_row base s

-- `Connect`
abbrev pub connect_list : Bool → String → List String → Dom
connect_list signed_in base keys =
    el "div" [] (api_key_callout signed_in ∷ map (λ key. url_row_of base (find_server key)) keys)

abbrev pub default_text : Option String → List Dom
default_text none = []
default_text (some d) = text (" · default " <> d) ∷ []

abbrev pub param_row : ToolParam → Dom
param_row p = el "div" [] (
    el "dt" [] (code_of p.name ∷ when p.required (el "span" [] (text "required" ∷ [])))
    ∷ el "dd" []
        (el "span" [] (text p.type_name ∷ default_text p.default) ∷ text p.description ∷ [])
    ∷ [])

abbrev pub param_list : List ToolParam → List Dom
param_list [] = []
param_list (p ∷ ps) = el "dl" [] (map param_row (p ∷ ps)) ∷ []

abbrev pub tool_card : ToolDoc → Dom
tool_card t = el "div" [] (
    el "div" [] (code_of t.name ∷ el "Badge" [] (text "tool" ∷ []) ∷ [])
    ∷ el "div" [] (el "p" [] (text t.summary ∷ []) ∷ param_list t.params)
    ∷ [])

abbrev pub tool_cards : Option ServerDoc → Dom
tool_cards none = nothing
tool_cards (some s) = el "div" [] (map tool_card s.tools)

-- `ToolList`
abbrev pub tool_list : String → Dom
tool_list key = tool_cards (find_server key)

-- `Check` where something was just copied, and else `Copy`.
abbrev pub copy_icon : Bool → Dom
copy_icon copied = icon (if copied then "Check" else "Copy")

-- `SkillDownload` with its `CopySkillButton`; `copied_cmd` and `copied` are their states.
abbrev pub skill_download : String → Bool → Bool → Dom
skill_download origin copied_cmd copied = el "div" [] (
    el "div" [] (
      el "div" [] (icon "Sparkles" ∷ [])
      ∷ el "div" [] (
          el "div" [] (text "Stateful memory skill" ∷ [])
          ∷ el "p" [] (
              text stateful_skill.tagline
              ∷ text " Drop it into your agent’s"
              ∷ text " "
              ∷ code_of ".claude/skills/"
              ∷ text " "
              ∷ text
                  "folder so it recalls before acting and persists after — instead of starting every session from a blank slate."
              ∷ [])
          ∷ el "div" [] (
              el "Button" []
                (anchor_to route (icon "Download" ∷ text "Download SKILL.md" ∷ []) ∷ [])
              ∷ el "Button" [] (copy_icon copied ∷ text "Copy contents" ∷ [])
              ∷ [])
          ∷ [])
      ∷ [])
    ∷ el "div" [] (
        el "div" [] (
          el "span" [] (text "install into your project" ∷ [])
          ∷ el "button" [] (copy_icon copied_cmd ∷ [])
          ∷ [])
        ∷ el "pre" [] (text (install_cmd origin) ∷ [])
        ∷ [])
    ∷ [])

abbrev pub heading_icon : Option String → List Dom
heading_icon none = []
heading_icon (some name) = icon name ∷ []

-- What a reader's browser and the site's settings add to a page.
pub record Setting : Type 0 where
  pub base : String
  pub signed_in : Bool
  pub origin : String
  pub copied_cmd : Bool
  pub copied_skill : Bool
  pub to_html : String → String → String

-- One block of `BlockRenderer`.
unfoldable pub block_dom : Setting → Block → Dom
block_dom w (Block.lead content) = el "p" [] (node_dom content ∷ [])
block_dom w (Block.heading id title mark) = el "h2" (id_is id ∷ []) (
    heading_icon (mathlib.Core.Option.map icon_name mark)
    ++ anchor_to ("#" <> id) (text title ∷ []) ∷ [])
block_dom w (Block.text content) = el "p" [] (node_dom content ∷ [])
block_dom w (Block.callout variant title content) = callout variant title content
block_dom w (Block.code lang title code) = code_block w.to_html lang title code
block_dom w (Block.connect keys) = connect_list w.signed_in w.base keys
block_dom w (Block.tools key) = tool_list key
block_dom w Block.skill = skill_download w.origin w.copied_cmd w.copied_skill
block_dom w (Block.cards items) = card_grid items
block_dom w (Block.steps items) = steps_list items
block_dom w (Block.diagram variant) = architecture_diagram variant

-- `BlockRenderer`
abbrev pub block_renderer : Setting → List Block → Dom
block_renderer w blocks = fragment (map (block_dom w) blocks)
