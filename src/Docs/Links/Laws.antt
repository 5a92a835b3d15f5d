-- ===== src/Docs/Links/Laws.antt =====
-- No link of the documentation is dead.
use go_mcp_server.Base.{
  String, ◌<>◌, List, [], ◌∷◌, ◌++◌, map, ◌≡◌, refl, true, all, contains, keep, not, distinct,
}
use go_mcp_server.Base.{◌==◌}
use go_mcp_server.Docs.Types.{NavItem, NavGroup}
use go_mcp_server.Docs.Toc.{anchors}
use go_mcp_server.Docs.Nav.{nav, top_nav}
use go_mcp_server.Docs.Servers.{server_list}
use go_mcp_server.Docs.Pages.{pages}
use go_mcp_server.Docs.Search.{build_index, go}
use go_mcp_server.Docs.Links.{block_links, all_links, served, nav_links}

-- Every link in the blocks of the pages leads to a page of the documentation or to the dashboard.
pub all_links-served :
    (base : String) → all (contains (served base)) (all_links (pages base)) ≡ true
unfolding pages anchors block_links
all_links-served base = refl

-- So does every link of the two navigation bars, and every entry of the search index, where the
-- entry of a tool leads to an anchor that the page of its server has.
pub navigation-served :
    (base : String)
    → (all (contains (served base)) (nav_links nav) ≡ true)
      × (all (λ (slug, _). contains (served base) ("/doc/" <> slug)) top_nav ≡ true)
      × (all (λ e. contains (served base) (go e)) (build_index (pages base) nav server_list) ≡ true)
unfolding pages anchors block_links build_index go
navigation-served base = (refl, refl, refl)

abbrev pub nav_slugs : List NavGroup → List String
nav_slugs [] = []
nav_slugs (g ∷ gs) = map (λ (i : NavItem). i.slug) g.items ++ nav_slugs gs

-- The navigation lists each page exactly once, in the order of the table of pages, and beside them
-- only the dashboard; and each page stands in the table under its own slug.
pub nav-pages :
    (base : String)
    → (keep (λ slug. not (slug == "keys")) (nav_slugs nav) ≡ map (λ (slug, _). slug) (pages base))
      × (map (λ (slug, _). slug) (pages base) ≡ map (λ (_, page). page.slug) (pages base))
      × (distinct (nav_slugs nav) ≡ true)
unfolding pages
nav-pages base = (refl, refl, refl)
