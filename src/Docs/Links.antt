-- ===== src/Docs/Links.antt =====
-- The addresses under /doc that the site serves, and the links of the pages: the `href`s in the
-- blocks (frontend/src/components/docs/blocks.tsx renders them), in the navigation
-- (frontend/src/components/docs/sidebar.tsx, top-nav.tsx) and in the search dialog.
pub mod Laws
use go_mcp_server.Base.{String, ◌<>◌, List, [], ◌∷◌, ◌++◌, map, Bool, if◌then◌else◌, keep, not}
use go_mcp_server.Base.{begins_with, contains}
use go_mcp_server.Docs.Types.{Node, Nodes, Block, DocPage, NavGroup, NavItem, Card, Step}
use go_mcp_server.Docs.Toc.{anchors}
use go_mcp_server.Docs.Pages.{pages}

unfoldable mutual
  pub node_links : Node → List String
  node_links (Node.str t) = []
  node_links (Node.element tag children) = nodes_links children
  node_links (Node.link href children) = href ∷ nodes_links children
  node_links (Node.fragment children) = nodes_links children

  nodes_links : Nodes → List String
  nodes_links Nodes.nil = []
  nodes_links (Nodes.cons n ns) = node_links n ++ nodes_links ns

abbrev pub step_links : List Step → List String
step_links [] = []
step_links (s ∷ ss) = node_links s.content ++ step_links ss

unfoldable pub block_links : List Block → List String
unfolding node_links
block_links [] = []
block_links (Block.lead content ∷ bs) = node_links content ++ block_links bs
block_links (Block.text content ∷ bs) = node_links content ++ block_links bs
block_links (Block.callout variant title content ∷ bs) = node_links content ++ block_links bs
block_links (Block.cards items ∷ bs) = map (λ (c : Card). c.href) items ++ block_links bs
block_links (Block.steps items ∷ bs) = step_links items ++ block_links bs
block_links (_ ∷ bs) = block_links bs

abbrev pub all_links : List (String × DocPage) → List String
all_links [] = []
all_links ((slug, page) ∷ ps) = block_links page.blocks ++ all_links ps

-- `/doc/[slug]` of each page, with the anchors of its blocks.
abbrev pub addresses : List (String × DocPage) → List String
addresses [] = []
addresses ((slug, page) ∷ ps) =
    ("/doc/" <> slug)
    ∷ (map (λ (a : String). "/doc/" <> (slug <> ("#" <> a))) (anchors page.blocks) ++ addresses ps)

-- What the site serves: the pages, and the key dashboard of frontend/src/app/doc/keys.
abbrev pub served : String → List String
served base = "/doc/keys" ∷ addresses (pages base)

-- `group.items.map((item) => "/doc/" + item.slug)`, over the groups
abbrev pub nav_links : List NavGroup → List String
nav_links [] = []
nav_links (g ∷ gs) = map (λ (i : NavItem). "/doc/" <> i.slug) g.items ++ nav_links gs
