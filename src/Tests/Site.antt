-- ===== src/Tests/Site.antt =====
-- Tests of the documentation site, and its theorems at concrete inputs.
use mathlib.Core.Option.{get_or}
use go_mcp_server.Base.{String, ◌<>◌, [], ◌∷◌, none, some, true, false, ◌≡◌, refl}
use go_mcp_server.Base.{◌↔◌, map, all, keep, distinct, contains, lookup, all_chars, last_is}
use go_mcp_server.Base.{not, ◌==◌}
use go_mcp_server.Mcp.{is_slash, default_base_url, mcp_base_url}
use go_mcp_server.Mcp.Laws.{mcp_base_url-decompose}
use go_mcp_server.Docs.Nav.{nav}
use go_mcp_server.Docs.Pages.{pages}
use go_mcp_server.Docs.Links.Laws.{nav-pages, nav_slugs}
use go_mcp_server.Docs.Page.{doc_page, not_found, type_error, object_prototype}
use go_mcp_server.Docs.Page.Laws.{doc_page-not_found_iff, doc_page-inherited}
use go_mcp_server.Base.{begins_with}
use go_mcp_server.Base.{all, contains, map, ◌==◌}
use go_mcp_server.Docs.Toc.{TocItem}
use go_mcp_server.Docs.Toc.Active.{after-contains, after, observed, Entry}
use go_mcp_server.Docs.Highlight.{split}
use go_mcp_server.Docs.Skill.{stateful_skill, install_cmd, get_skill, route}
use go_mcp_server.Docs.Skill.Laws.{install_cmd-path}

abbrev local : String
local = "http://localhost:8080"

mcp_base_url-decompose_example :
    (t : String) × (get_or (some "https://mcp.example.com//") default_base_url
      ≡ mcp_base_url (some "https://mcp.example.com//") <> t)
    × (all_chars is_slash t ≡ true)
    × (last_is is_slash (mcp_base_url (some "https://mcp.example.com//")) ≡ false)
mcp_base_url-decompose_example = mcp_base_url-decompose (some "https://mcp.example.com//")

nav-pages_example :
    (keep (λ slug. not (slug == "keys")) (nav_slugs nav) ≡ map (λ (slug, _). slug) (pages local))
    × (map (λ (slug, _). slug) (pages local) ≡ map (λ (_, page). page.slug) (pages local))
    × (distinct (nav_slugs nav) ≡ true)
nav-pages_example = nav-pages local

doc_page-not_found_iff_example :
    (doc_page local "nowhere" ≡ not_found)
    ↔ ((lookup "nowhere" (pages local) ≡ none) × (contains object_prototype "nowhere" ≡ false))
doc_page-not_found_iff_example = doc_page-not_found_iff local "nowhere"

doc_page-inherited_example :
    (lookup "constructor" (pages local) ≡ none) × (doc_page local "constructor" ≡ type_error)
doc_page-inherited_example = doc_page-inherited local "constructor" refl

split_doc : split "/doc/memory" ≡ "" ∷ "doc" ∷ "memory" ∷ []
unfolding split
split_doc = refl

abbrev connect_item : TocItem
connect_item = record { id = "connect"; text = "Connect" }

abbrev tools_item : TocItem
tools_item = record { id = "tools"; text = "Tools" }

abbrev seen : String → Entry
seen id = record { target = id; is_intersecting = true }

after-contains_example :
    contains
      (map (λ (t : TocItem). t.id) (connect_item ∷ tools_item ∷ []))
      (after (connect_item ∷ tools_item ∷ []) ((seen "tools" ∷ []) ∷ []))
    ≡ true
unfolding observed
after-contains_example =
    after-contains ("connect" ∷ "tools" ∷ []) connect_item (tools_item ∷ [])
      ((seen "tools" ∷ []) ∷ []) refl

install_cmd-path_example :
    (folder : String) × (stateful_skill.install_path ≡ folder <> "/SKILL.md")
    × (install_cmd "https://relivo.dev"
        ≡ "mkdir -p "
          <> (folder
              <> ("\ncurl -sL "
                  <> ("https://relivo.dev" <> (route <> (" -o " <> (folder <> "/SKILL.md")))))))
    × (folder ≡ ".claude/skills/" <> stateful_skill.name)
    × (begins_with get_skill.body ("---\nname: " <> (stateful_skill.name <> "\n")) ≡ true)
install_cmd-path_example = install_cmd-path "https://relivo.dev"
