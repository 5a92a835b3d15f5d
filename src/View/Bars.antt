-- ===== src/View/Bars.antt =====
-- The bars around a page: `DocLayout` (frontend/src/app/doc/layout.tsx), with sidebar.tsx,
-- top-nav.tsx, theme-toggle.tsx and search-command.tsx of frontend/src/components/docs, and `LandingNav` of
-- frontend/src/components/marketing/landing-nav.tsx. `path` is `usePathname()`.
use go_mcp_server.Base.{String, ◌<>◌, List, [], ◌∷◌, Bool, map, ◌==◌, if◌then◌else◌, join}
use go_mcp_server.Docs.Types.{NavGroup, NavItem}
use go_mcp_server.Docs.Highlight.{current}
use go_mcp_server.Docs.Search.{Entry, build_index, page_entries, tool_entries}
use go_mcp_server.Docs.Nav.{nav, top_nav}
use go_mcp_server.Docs.Pages.{pages}
use go_mcp_server.Docs.Servers.{server_list}
use go_mcp_server.View.{
  Dom, text, el, flag, href_is, prop, anchor_to, link_to, icon, fragment, when_text,
}
use go_mcp_server.View.Site.{site}

abbrev pub nav_item_link : String → NavItem → Dom
nav_item_link path item = el "li" [] (
    el "Link" (href_is ("/doc/" <> item.slug) ∷ flag "active" (path == "/doc/" <> item.slug) ∷ [])
      (text item.label ∷ when_text item.badge (λ t. el "span" [] (text t ∷ [])))
    ∷ [])

abbrev pub nav_group : String → NavGroup → Dom
nav_group path group =
    el "div" []
      (el "div" [] (text group.title ∷ []) ∷ el "ul" [] (map (nav_item_link path) group.items) ∷ [])

-- `SidebarNav`
abbrev pub sidebar_nav : String → List NavGroup → Dom
sidebar_nav path groups = el "nav" [] (map (nav_group path) groups)

abbrev theme_item : String → String → Dom
theme_item mark label = el "DropdownMenuItem" [] (icon mark ∷ text label ∷ [])

-- `ThemeToggle`, by its state `mounted`
abbrev pub theme_toggle : Bool → Dom
theme_toggle mounted = el "DropdownMenu" [] (
    el "Button" [] ((if mounted then icon "Sun" ∷ icon "Moon" ∷ [] else icon "Sun" ∷ []))
    ∷ el "DropdownMenuContent" []
        (theme_item "Sun" "Light" ∷ theme_item "Moon" "Dark" ∷ theme_item "Monitor" "System" ∷ [])
    ∷ [])

-- The `value` by which cmdk finds an item.
abbrev pub search_value : Entry → String
search_value e = e.label <> (" " <> join " " e.keywords)

abbrev pub page_item : Entry → Dom
page_item e =
    el "CommandItem" (prop "value" (search_value e) ∷ []) (icon "FileText" ∷ text e.label ∷ [])

abbrev pub tool_item : Entry → Dom
tool_item e =
    el "CommandItem" (prop "value" (search_value e) ∷ [])
      (icon "Wrench" ∷ el "span" [] (text e.label ∷ []) ∷ [])

-- `SearchButton`, by its state `open` and its index
abbrev pub search_button : Bool → List Entry → Dom
search_button opened index = fragment (
    el "button" []
      (icon "Search" ∷ el "span" [] (text "Search..." ∷ []) ∷ el "kbd" [] (text "⌘K" ∷ []) ∷ [])
    ∷ el "CommandDialog" (flag "open" opened ∷ prop "title" "Search docs" ∷ []) (
        el "Command" [] (
          el "CommandInput" (prop "placeholder" "Search pages and tools..." ∷ []) []
          ∷ el "CommandList" [] (
              el "CommandEmpty" [] (text "No results found." ∷ [])
              ∷ el "CommandGroup" (prop "heading" "Pages" ∷ []) (map page_item (page_entries index))
              ∷ el "CommandGroup" (prop "heading" "Tools" ∷ []) (map tool_item (tool_entries index))
              ∷ [])
          ∷ [])
        ∷ [])
    ∷ [])

abbrev pub top_link : String → String × String → Dom
top_link path (slug, label) =
    el "Link" (href_is ("/doc/" <> slug) ∷ flag "active" (current path == slug) ∷ [])
      (text label ∷ [])

-- What the top bar and the sidebar are rendered from.
pub record Bars : Type 0 where
  pub path : String
  pub signed_in : Bool
  pub mounted : Bool
  pub search_open : Bool
  pub groups : List NavGroup
  pub tops : List (String × String)
  pub index : List Entry

-- The end of the top bar.
abbrev pub account_links : Bool → Dom
account_links signed_in =
    if signed_in
    then fragment (
        el "Button" [] (link_to "/doc/keys" (icon "KeyRound" ∷ text "API keys" ∷ []) ∷ [])
        ∷ el "UserButton" [] []
        ∷ [])
    else el "Button" [] (link_to "/sign-in" (text "Sign in" ∷ []) ∷ [])

-- `TopNav`
abbrev pub top_nav_dom : Bars → Dom
top_nav_dom b = el "header" [] (
    el "div" [] (
      el "Sheet" [] (
        el "SheetTrigger" []
          (el "Button" [] (icon "Menu" ∷ el "span" [] (text "Open navigation" ∷ []) ∷ []) ∷ [])
        ∷ el "SheetContent" [] (
            el "SheetTitle" [] (icon "Logo" ∷ text " Relivo" ∷ [])
            ∷ sidebar_nav b.path b.groups
            ∷ [])
        ∷ [])
      ∷ link_to "/doc/overview"
          (icon "Logo" ∷ el "span" [] (text "Relivo" ∷ []) ∷ el "span" [] (text "Docs" ∷ []) ∷ [])
      ∷ el "nav" [] (map (top_link b.path) b.tops)
      ∷ el "div" [] (
          search_button b.search_open b.index
          ∷ theme_toggle b.mounted
          ∷ el "Button" [] (anchor_to site.github (icon "GitHubIcon" ∷ []) ∷ [])
          ∷ el "Button" [] (
              anchor_to site.app
                (text "Open app" ∷ el "span" (prop "title" site.app_status ∷ []) [] ∷ [])
              ∷ [])
          ∷ account_links b.signed_in
          ∷ [])
      ∷ [])
    ∷ [])

-- `DocLayout`
unfoldable pub doc_layout : Bars → Dom → Dom
doc_layout b children = el "div" [] (
    top_nav_dom b
    ∷ el "div" []
        (el "aside" [] (sidebar_nav b.path b.groups ∷ []) ∷ el "div" [] (children ∷ []) ∷ [])
    ∷ [])

abbrev pub landing_links : List (String × String)
landing_links =
    ("#namespaces", "Namespaces") ∷ ("#features", "Features") ∷ ("/doc/overview", "Docs") ∷ []

-- `LandingNav`
abbrev pub landing_nav : Bool → Dom
landing_nav mounted = el "header" [] (
    el "div" [] (
      link_to "/" (icon "Logo" ∷ text site.name ∷ [])
      ∷ el "nav" [] (map (λ (href, label). link_to href (text label ∷ [])) landing_links)
      ∷ el "div" [] (
          theme_toggle mounted
          ∷ el "Button" [] (anchor_to site.github (icon "GitHubIcon" ∷ []) ∷ [])
          ∷ el "Button" [] (
              anchor_to site.app
                (text "Open app" ∷ el "span" [] (el "span" [] [] ∷ text "Beta" ∷ []) ∷ [])
              ∷ [])
          ∷ el "Button" [] (link_to "/doc/overview" (text "Get started" ∷ []) ∷ [])
          ∷ [])
      ∷ [])
    ∷ [])

-- The bars of a page, from the site's content: `nav`, `topNav` and `buildIndex()`.
abbrev pub bars : String → String → Bool → Bool → Bool → Bars
bars base path signed_in mounted search_open = record {
  path = path;
  signed_in = signed_in;
  mounted = mounted;
  search_open = search_open;
  groups = nav;
  tops = top_nav;
  index = build_index (pages base) nav server_list;
}
