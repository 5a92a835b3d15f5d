-- ===== src/Docs/ServerPages.antt =====
-- The table of servers, and the pages that are built from it.
use mathlib.Core.List.{Mem, mem-cons_self, mem-append_right, mem-cons_of_mem}
use go_mcp_server.Base.{
  String, ◌<>◌, List, ◌∷◌, ◌++◌, Option, some, none, true, ◌≡◌, refl, ◌∙◌, ap, map, All, all,
}
use go_mcp_server.Base.{distinct, begins_with, lookup-All, arith}
use go_mcp_server.Docs.Types.{ServerDoc, ServerRequires, ToolDoc, ToolParam, Block}
use go_mcp_server.Docs.Servers.{servers, find_server}
use go_mcp_server.Docs.Pages.{server_page, when_text, requires_callout, note_callout}
use go_mcp_server.Docs.Markdown.{page_lines, tool_title}
use go_mcp_server.Docs.Markdown.Laws.{page_lines-mem_tool}
use go_mcp_server.Docs.Toc.{anchors}

-- The names of a server's tools begin with its key and differ; so do the parameters of a tool.
abbrev pub IsConsistent : ServerDoc → Type 0
IsConsistent s =
    (s.path ≡ "/" <> (s.key <> "/mcp"))
    × (all (λ (t : ToolDoc). begins_with t.name (s.key <> "_")) s.tools ≡ true)
    × (distinct (map (λ (t : ToolDoc). t.name) s.tools) ≡ true)
    × (all (λ (t : ToolDoc). distinct (map (λ (p : ToolParam). p.name) t.params)) s.tools ≡ true)

servers-IsConsistent : All (λ (key, s). (s.key ≡ key) × IsConsistent s) servers
servers-IsConsistent = (
  (refl, (refl, refl, refl, refl)),
  (
    (refl, (refl, refl, refl, refl)),
    (
      (refl, (refl, refl, refl, refl)),
      ((refl, (refl, refl, refl, refl)), ((refl, (refl, refl, refl, refl)), tt)),
    ),
  ),
)

-- Whatever key is looked up, a server that is found has the route `/<key>/mcp`, tools with
-- distinct names that begin with its key, and distinct parameters in each tool.
pub find_server-IsConsistent :
    (key : String) {s : ServerDoc} → find_server key ≡ some s → (s.key ≡ key) × IsConsistent s
find_server-IsConsistent key found =
    lookup-All (λ key s. (s.key ≡ key) × IsConsistent s) key servers servers-IsConsistent found

anchors-when_text :
    (o : Option String) (title : String) (bs : List Block)
    → anchors (when_text o (note_callout title) ++ bs) ≡ anchors bs
unfolding anchors
anchors-when_text none title bs = refl
anchors-when_text (some t) title bs = ground arith

anchors-requires_callout :
    (o : Option ServerRequires) (bs : List Block) → anchors (requires_callout o ++ bs) ≡ anchors bs
unfolding anchors
anchors-requires_callout none bs = refl
anchors-requires_callout (some r) bs = refl

-- Whatever the server's notes, its page has the anchors `connect` and `tools`, in that order, and
-- then those of the extra blocks.
pub server_page-anchors :
    (base key description : String) (s : ServerDoc) (extra : List Block)
    → anchors (server_page base key s description extra).blocks
      ≡ "connect" ∷ "tools" ∷ anchors extra
unfolding server_page anchors
server_page-anchors base key description s extra =
    anchors-when_text s.example "How it helps" _
    ∙ ap (λ ids. "connect" ∷ ids)
        (anchors-requires_callout s.requires _ ∙ anchors-when_text s.note "Good to know" _)

-- The copied Markdown of a server's page lists every tool of the server, whatever the extra blocks.
pub server_page-lists_tools :
    (base key description : String) {s : ServerDoc} (extra : List Block) (t : ToolDoc)
    → find_server key ≡ some s
    → Mem t s.tools
    → Mem (tool_title t) (page_lines (server_page base key s description extra) base)
unfolding server_page
server_page-lists_tools base key description {s} extra t found m =
    page_lines-mem_tool (server_page base key s description extra) base key t
      (mem-cons_of_mem _ (
        mem-append_right (when_text s.example (note_callout "How it helps")) (
          mem-cons_of_mem _ (
            mem-cons_of_mem _ (
              mem-cons_of_mem _ (
                mem-cons_of_mem _ (
                  mem-cons_of_mem _ (
                    mem-append_right (requires_callout s.requires) (
                      mem-append_right (when_text s.note (note_callout "Good to know"))
                        (mem-cons_of_mem _ mem-cons_self))))))))))
      found m
