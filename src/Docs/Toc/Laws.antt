-- ===== src/Docs/Toc/Laws.antt =====
-- The table of contents and the anchors of the page.
use go_mcp_server.Base.{String, List, [], ◌∷◌, ◌≡◌, refl, ap, true, all, map, keep, distinct}
use go_mcp_server.Docs.Types.{Block, DocPage}
use go_mcp_server.Docs.Pages.{pages}
use go_mcp_server.Docs.Toc.{TocItem, toc_item, is_heading, toc_of, anchors}

toc-anchors : (bs : List Block) → map (λ t. t.id) (map toc_item (keep is_heading bs)) ≡ anchors bs
unfolding anchors
toc-anchors [] = refl
toc-anchors (Block.heading id text icon ∷ bs) = ap (λ ids. id ∷ ids) (toc-anchors bs)
toc-anchors (_ ∷ bs) = toc-anchors bs

-- The entries of the table of contents lead, in order, to the anchors of the page, and every
-- anchor has its entry.
pub toc_of-anchors :
    (page : DocPage) → map (λ (t : TocItem). t.id) (toc_of page) ≡ anchors page.blocks
unfolding toc_of
toc_of-anchors page = toc-anchors page.blocks

-- On every page the anchors differ from one another, so each entry leads to its own heading.
pub pages-distinct-anchors :
    (base : String) → all (λ (_, page). distinct (anchors page.blocks)) (pages base) ≡ true
unfolding pages anchors
pages-distinct-anchors base = refl
