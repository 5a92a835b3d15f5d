-- ===== src/Docs/Search/Laws.antt =====
-- What the search index holds, and where its entries lead.
use mathlib.Core.List.{append_assoc, append-nil}
use go_mcp_server.Base.{
  String, List, [], ◌∷◌, ◌++◌, ◌≡◌, refl, sym, ap, ◌∙◌, map, keep, keep-append,
}
use go_mcp_server.Base.{◌==◌, if◌then◌else◌, arith}
use go_mcp_server.Docs.Types.{NavGroup, NavItem, ServerDoc, ToolDoc, DocPage}
use go_mcp_server.Docs.Search.{
  Entry, page_entry, tool_entry, push_items, push_tools, push_groups, push_servers, build_index,
  in_group, page_entries, tool_entries,
}

-- The entries without the accumulator: one for each item, one for each tool.
abbrev pub entries_of_nav : List (String × DocPage) → List NavGroup → List Entry
entries_of_nav pages [] = []
entries_of_nav pages (g ∷ gs) = map (page_entry pages g) g.items ++ entries_of_nav pages gs

abbrev pub entries_of_servers : List ServerDoc → List Entry
entries_of_servers [] = []
entries_of_servers (s ∷ ss) = map (tool_entry s) s.tools ++ entries_of_servers ss

push_items-map :
    (pages : List (String × DocPage)) (g : NavGroup) (entries : List Entry) (items : List NavItem)
    → push_items pages g entries items ≡ entries ++ map (page_entry pages g) items
unfolding push_items
push_items-map pages g entries [] = sym (append-nil entries)
push_items-map pages g entries (item ∷ items) =
    push_items-map pages g (entries ++ page_entry pages g item ∷ []) items
    ∙ append_assoc entries _ _

push_tools-map :
    (s : ServerDoc) (entries : List Entry) (ts : List ToolDoc)
    → push_tools s entries ts ≡ entries ++ map (tool_entry s) ts
unfolding push_tools
push_tools-map s entries [] = sym (append-nil entries)
push_tools-map s entries (t ∷ ts) =
    push_tools-map s (entries ++ tool_entry s t ∷ []) ts ∙ append_assoc entries _ _

push_groups-nav :
    (pages : List (String × DocPage)) (entries : List Entry) (gs : List NavGroup)
    → push_groups pages entries gs ≡ entries ++ entries_of_nav pages gs
unfolding push_groups
push_groups-nav pages entries [] = sym (append-nil entries)
push_groups-nav pages entries (g ∷ gs) = rw (push_items-map pages g entries g.items) (
    push_groups-nav pages (entries ++ map (page_entry pages g) g.items) gs
    ∙ append_assoc entries _ _)

push_servers-tools :
    (entries : List Entry) (ss : List ServerDoc)
    → push_servers entries ss ≡ entries ++ entries_of_servers ss
unfolding push_servers
push_servers-tools entries [] = sym (append-nil entries)
push_servers-tools entries (s ∷ ss) =
    rw (push_tools-map s entries s.tools)
      (push_servers-tools (entries ++ map (tool_entry s) s.tools) ss ∙ append_assoc entries _ _)

-- The index is the items of the navigation, group by group, and then the tools, server by server:
-- each once, in that order, with its page's title or its server's name among the keywords.
pub build_index-entries :
    (pages : List (String × DocPage)) (nav : List NavGroup) (server_list : List ServerDoc)
    → build_index pages nav server_list ≡ entries_of_nav pages nav ++ entries_of_servers server_list
unfolding build_index
build_index-entries pages nav server_list =
    push_servers-tools (push_groups pages [] nav) server_list
    ∙ ap (λ es. es ++ entries_of_servers server_list) (push_groups-nav pages [] nav)

keep-page_entry :
    (pages : List (String × DocPage)) (group : String) (g : NavGroup) (items : List NavItem)
    → keep (in_group group) (map (page_entry pages g) items)
      ≡ (if "Pages" == group then map (page_entry pages g) items else [])
keep-page_entry pages group g [] = ground arith
keep-page_entry pages group g (item ∷ items) = ground (arith, keep-page_entry pages group g items)

keep-nav :
    (pages : List (String × DocPage)) (group : String) (gs : List NavGroup)
    → keep (in_group group) (entries_of_nav pages gs)
      ≡ (if "Pages" == group then entries_of_nav pages gs else [])
keep-nav pages group [] = ground arith
keep-nav pages group (g ∷ gs) =
    rw (keep-append, keep-page_entry, keep-nav pages group gs) (ground arith)

keep-tool_entry :
    (group : String) (s : ServerDoc) (ts : List ToolDoc)
    → keep (in_group group) (map (tool_entry s) ts)
      ≡ (if "Tools" == group then map (tool_entry s) ts else [])
keep-tool_entry group s [] = ground arith
keep-tool_entry group s (t ∷ ts) = ground (arith, keep-tool_entry group s ts)

keep-servers :
    (group : String) (ss : List ServerDoc)
    → keep (in_group group) (entries_of_servers ss)
      ≡ (if "Tools" == group then entries_of_servers ss else [])
keep-servers group [] = ground arith
keep-servers group (s ∷ ss) =
    rw (keep-append, keep-tool_entry, keep-servers group ss) (ground arith)

-- The two groups of the dialog share the index out: the pages are the items of the navigation,
-- the tools are those of the servers, and no entry is lost or shown twice.
pub build_index-groups :
    (pages : List (String × DocPage)) (nav : List NavGroup) (server_list : List ServerDoc)
    → let index = build_index pages nav server_list in
      (page_entries index ≡ entries_of_nav pages nav)
      × (tool_entries index ≡ entries_of_servers server_list)
      × (index ≡ page_entries index ++ tool_entries index)
unfolding page_entries tool_entries
build_index-groups pages nav server_list =
    rw
      (
        build_index-entries pages nav server_list,
        keep-append,
        keep-nav,
        keep-servers,
        keep-append,
        keep-nav,
        keep-servers,
      )
      (append-nil _, refl, rw append-nil refl)
