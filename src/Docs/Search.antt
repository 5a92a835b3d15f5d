-- ===== src/Docs/Search.antt =====
-- `buildIndex` and `go` of frontend/src/components/docs/search-command.tsx.
pub mod Laws
pub mod Dialog
use go_mcp_server.Base.{String, ◌<>◌, List, [], ◌∷◌, ◌++◌, Option, none, some, lookup, is_empty}
use go_mcp_server.Base.{if◌then◌else◌, ◌==◌, keep, Bool}
use go_mcp_server.Docs.Types.{NavGroup, NavItem, ServerDoc, ToolDoc, DocPage}

pub record Entry : Type 0 where
  pub slug : String
  pub label : String
  pub group : String
  pub keywords : List String
  pub tool : Option String

-- `page?.title ?? ""`
abbrev title_of : Option DocPage → String
title_of none = ""
title_of (some page) = page.title

abbrev pub page_entry : List (String × DocPage) → NavGroup → NavItem → Entry
page_entry pages group item = record {
  slug = item.slug;
  label = item.label;
  group = "Pages";
  keywords = item.label ∷ group.title ∷ title_of (lookup item.slug pages) ∷ [];
  tool = none;
}

abbrev pub tool_entry : ServerDoc → ToolDoc → Entry
tool_entry s t = record {
  slug = s.key;
  label = t.name;
  group = "Tools";
  keywords = t.name ∷ s.name ∷ t.summary ∷ [];
  tool = some t.name;
}

-- The two inner loops: each pushes onto `entries`.
unfoldable pub push_items :
    List (String × DocPage) → NavGroup → List Entry → List NavItem → List Entry
push_items pages group entries [] = entries
push_items pages group entries (item ∷ items) =
    push_items pages group (entries ++ (page_entry pages group item ∷ [])) items

unfoldable pub push_tools : ServerDoc → List Entry → List ToolDoc → List Entry
push_tools s entries [] = entries
push_tools s entries (t ∷ ts) = push_tools s (entries ++ (tool_entry s t ∷ [])) ts

unfoldable pub push_groups : List (String × DocPage) → List Entry → List NavGroup → List Entry
unfolding push_items
push_groups pages entries [] = entries
push_groups pages entries (g ∷ gs) = push_groups pages (push_items pages g entries g.items) gs

unfoldable pub push_servers : List Entry → List ServerDoc → List Entry
unfolding push_tools
push_servers entries [] = entries
push_servers entries (s ∷ ss) = push_servers (push_tools s entries s.tools) ss

-- `buildIndex()`
unfoldable pub build_index : List (String × DocPage) → List NavGroup → List ServerDoc → List Entry
unfolding push_groups push_servers
build_index pages nav server_list = push_servers (push_groups pages [] nav) server_list

-- `entry.tool ? "#tools" : ""`
abbrev pub anchor_of : Option String → String
anchor_of none = ""
anchor_of (some t) = if is_empty t then "" else "#tools"

-- The address that `go` pushes.
unfoldable pub go : Entry → String
go e = "/doc/" <> (e.slug <> anchor_of e.tool)

abbrev pub in_group : String → Entry → Bool
in_group group e = e.group == group

-- `index.filter((e) => e.group === …)`
unfoldable pub page_entries : List Entry → List Entry
page_entries = keep (in_group "Pages")

unfoldable pub tool_entries : List Entry → List Entry
tool_entries = keep (in_group "Tools")
