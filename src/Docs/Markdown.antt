-- ===== src/Docs/Markdown.antt =====
-- `pageMarkdown` of frontend/src/lib/docs.tsx: the text behind the "Copy page" button.
pub mod Laws
use mathlib.Core.Option.{get_or}
use go_mcp_server.Base.{String, ◌<>◌, List, [], ◌∷◌, ◌++◌, Option, none, some, Bool, join, trim}
use go_mcp_server.Base.{if◌then◌else◌}
use go_mcp_server.Docs.Types.{Block, Node, DocPage, ServerDoc, ToolDoc, ToolParam, str}
use go_mcp_server.Docs.Types.{element, link, fragment}
use go_mcp_server.Docs.Servers.{find_server}

abbrev pub param_line : ToolParam → String
param_line p =
    "- `"
    <> (p.name
        <> ("` ("
            <> (p.type_name
                <> ((if p.required then ", required" else "") <> ("): " <> p.description)))))

abbrev pub param_lines : List ToolParam → List String
param_lines [] = []
param_lines (p ∷ ps) = param_line p ∷ param_lines ps

abbrev pub tool_title : ToolDoc → String
tool_title t = "### `" <> (t.name <> "`")

abbrev pub tool_lines : List ToolDoc → List String
tool_lines [] = []
tool_lines (t ∷ ts) =
    (tool_title t ∷ "" ∷ t.summary ∷ "" ∷ []) ++ (param_lines t.params ++ ("" ∷ tool_lines ts))

abbrev pub server_line : String → ServerDoc → String
server_line base s = "- **" <> (s.name <> ("**: `" <> ((base <> s.path) <> "`")))

abbrev pub connect_lines : String → List String → List String
connect_lines base [] = []
connect_lines base (key ∷ keys) = elim (find_server key) [
  | none ↦ connect_lines base keys
  | some s ↦ server_line base s ∷ connect_lines base keys
]

-- What one block pushes.
unfoldable pub block_lines : String → Block → List String
block_lines base (Block.heading id text icon) = ("## " <> text) ∷ "" ∷ []
block_lines base (Block.code lang title code) = ("```" <> get_or lang "") ∷ code ∷ "```" ∷ "" ∷ []
block_lines base (Block.connect keys) = connect_lines base keys ++ ("" ∷ [])
block_lines base (Block.tools key) = elim (find_server key) [
  | none ↦ []
  | some s ↦ tool_lines s.tools
]
block_lines base Block.skill =
    "Download the stateful-memory Agent Skill (drop into `.claude/skills/stateful-memory/SKILL.md`): `/api/skills/stateful-memory`"
    ∷ "" ∷ []
block_lines base _ = []

-- The loop over `page.blocks`.
unfoldable pub push_blocks : String → List String → List Block → List String
unfolding block_lines
push_blocks base lines [] = lines
push_blocks base lines (b ∷ bs) = push_blocks base (lines ++ block_lines base b) bs

-- `typeof page.description === "string"`
abbrev pub description_lines : Node → List String
description_lines (str t) = t ∷ "" ∷ []
description_lines (element tag children) = []
description_lines (link href children) = []
description_lines (fragment children) = []

unfoldable pub page_lines : DocPage → String → List String
unfolding push_blocks
page_lines page base =
    push_blocks base ((("# " <> page.title) ∷ "" ∷ []) ++ description_lines page.description)
      page.blocks

unfoldable pub page_markdown : DocPage → String → String
unfolding page_lines trim
page_markdown page base = trim (join "\n" (page_lines page base)) <> "\n"
