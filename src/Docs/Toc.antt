-- ===== src/Docs/Toc.antt =====
-- `tocOf` of frontend/src/lib/docs.tsx, the anchors that frontend/src/components/docs/blocks.tsx
-- renders, and the state of frontend/src/components/docs/toc.tsx.
pub mod Laws
pub mod Active
use go_mcp_server.Base.{String, List, [], ◌∷◌, Bool, true, false, keep, map}
use go_mcp_server.Docs.Types.{Block, DocPage}

pub record TocItem : Type 0 where
  pub id : String
  pub text : String

abbrev pub is_heading : Block → Bool
is_heading (Block.heading id text icon) = true
is_heading _ = false

-- `.map((b) => ({ id: b.id, text: b.text }))`, of headings only
abbrev pub toc_item : Block → TocItem
toc_item (Block.heading id text icon) = record { id = id; text = text }
toc_item _ = record { id = ""; text = "" }

unfoldable pub toc_of : DocPage → List TocItem
toc_of page = map toc_item (keep is_heading page.blocks)

-- The `id` attributes that `BlockRenderer` gives to the blocks, in the order of the page: only a
-- heading has one.
unfoldable pub anchors : List Block → List String
anchors [] = []
anchors (Block.heading id text icon ∷ bs) = id ∷ anchors bs
anchors (_ ∷ bs) = anchors bs
