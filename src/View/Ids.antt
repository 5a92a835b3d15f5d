-- ===== src/View/Ids.antt =====
-- The `id`s and the links that a page renders, whatever its content.
use mathlib.Core.List.{append-nil}
use go_mcp_server.Base.{
  String, ◌<>◌, ℕ, suc, List, [], ◌∷◌, ◌++◌, map, Option, none, some, Bool, true, false, ◌≡◌, refl,
  ap, ◌∙◌, sym, is_empty, inl, inr, Bool-cases,
}
use go_mcp_server.Docs.Types.{
  Block, request, register, Node, Nodes, DocPage, Step, ServerDoc, ToolDoc, ToolParam,
}
use go_mcp_server.Docs.Servers.{find_server}
use go_mcp_server.Docs.Toc.{TocItem, anchors, toc_of}
use go_mcp_server.Docs.Toc.Laws.{toc_of-anchors}
use go_mcp_server.View.{
  Dom, text, doms, el, dom_ids, doms_ids, dom_hrefs, doms_hrefs, node_dom, nodes_doms, when_text,
  when,
}
use go_mcp_server.View.Blocks.{
  Setting, block_dom, block_renderer, step_items, card_link, url_row_of, param_row, param_list,
  tool_card, tool_cards, default_text, api_key_callout,
}
use go_mcp_server.View.Articles.{toc_dom, toc_link, article_dom}

mutual
  unfolding node_dom dom_ids

  node_ids : (n : Node) → dom_ids (node_dom n) ≡ []
  node_ids (Node.str t) = refl
  node_ids (Node.element tag children) = nodes_ids children
  node_ids (Node.link href children) = nodes_ids children
  node_ids (Node.fragment children) = nodes_ids children

  nodes_ids : (ns : Nodes) → doms_ids (nodes_doms ns) ≡ []
  nodes_ids Nodes.nil = refl
  nodes_ids (Nodes.cons n ns) = rw (node_ids n) (nodes_ids ns)

-- No tree of a list has an id.
doms_ids-map :
    {A : Type 0} (f : A → Dom) (xs : List A)
    → ((x : A) → dom_ids (f x) ≡ [])
    → doms_ids (doms (map f xs)) ≡ []
unfolding doms_ids
doms_ids-map f [] h = refl
doms_ids-map f (x ∷ xs) h = rw (h x) (doms_ids-map f xs h)

when_text-ids :
    (o : Option String) (f : String → Dom)
    → ((t : String) → dom_ids (f t) ≡ [])
    → doms_ids (doms (when_text o f)) ≡ []
unfolding doms_ids
when_text-ids none f h = refl
when_text-ids (some t) f h = elim (Bool-cases (is_empty t)) [
  | inl empty ↦ rw empty refl
  | inr full ↦ rw full (rw (h t) refl)
]

when-ids : (b : Bool) (d : Dom) → dom_ids d ≡ [] → doms_ids (doms (when b d)) ≡ []
unfolding doms_ids
when-ids true d h = rw h refl
when-ids false d h = refl

step_items-ids : (i : ℕ) (ss : List Step) → doms_ids (doms (step_items i ss)) ≡ []
unfolding doms_ids
step_items-ids i [] = refl
step_items-ids i (s ∷ ss) = rw (node_ids s.content) (step_items-ids (suc i) ss)

default_text-ids : (o : Option String) → doms_ids (doms (default_text o)) ≡ []
unfolding doms_ids
default_text-ids none = refl
default_text-ids (some d) = refl

param_row-ids : (p : ToolParam) → dom_ids (param_row p) ≡ []
unfolding dom_ids
param_row-ids p =
    rw (when-ids p.required (el "span" [] (text "required" ∷ [])) refl, default_text-ids p.default)
      refl

param_list-ids : (ps : List ToolParam) → doms_ids (doms (param_list ps)) ≡ []
unfolding doms_ids
param_list-ids [] = refl
param_list-ids (p ∷ ps) = rw (doms_ids-map param_row (p ∷ ps) param_row-ids) refl

tool_card-ids : (t : ToolDoc) → dom_ids (tool_card t) ≡ []
unfolding dom_ids
tool_card-ids t = rw (param_list-ids t.params) refl

tool_cards-ids : (s : Option ServerDoc) → dom_ids (tool_cards s) ≡ []
unfolding dom_ids
tool_cards-ids none = refl
tool_cards-ids (some s) = doms_ids-map tool_card s.tools tool_card-ids

url_row_of-ids : (base : String) (s : Option ServerDoc) → dom_ids (url_row_of base s) ≡ []
unfolding dom_ids
url_row_of-ids base none = refl
url_row_of-ids base (some s) = refl

api_key_callout-ids : (signed_in : Bool) → dom_ids (api_key_callout signed_in) ≡ []
unfolding dom_ids
api_key_callout-ids true = refl
api_key_callout-ids false = refl

anchors-cons : (b : Block) (bs : List Block) → anchors (b ∷ bs) ≡ anchors (b ∷ []) ++ anchors bs
unfolding anchors
anchors-cons (Block.heading id title mark) bs = refl
anchors-cons (Block.lead content) bs = refl
anchors-cons (Block.text content) bs = refl
anchors-cons (Block.callout variant title content) bs = refl
anchors-cons (Block.code lang title code) bs = refl
anchors-cons (Block.connect keys) bs = refl
anchors-cons (Block.tools key) bs = refl
anchors-cons Block.skill bs = refl
anchors-cons (Block.cards items) bs = refl
anchors-cons (Block.steps items) bs = refl
anchors-cons (Block.diagram variant) bs = refl

block_ids : (w : Setting) (b : Block) → dom_ids (block_dom w b) ≡ anchors (b ∷ [])
unfolding dom_ids anchors block_dom
block_ids w (Block.lead content) = rw (node_ids content) refl
block_ids w (Block.heading id title none) = refl
block_ids w (Block.heading id title (some mark)) = refl
block_ids w (Block.text content) = rw (node_ids content) refl
block_ids w (Block.callout variant title content) =
    rw (when_text-ids title (λ t. el "span" [] (text t ∷ [])) (λ t. refl), node_ids content) refl
block_ids w (Block.code lang title code) = refl
block_ids w (Block.connect keys) = rw (api_key_callout-ids w.signed_in) (
    doms_ids-map (λ key. url_row_of w.base (find_server key)) keys
      (λ key. url_row_of-ids w.base (find_server key)))
block_ids w (Block.tools key) = tool_cards-ids (find_server key)
block_ids w Block.skill = refl
block_ids w (Block.cards items) = doms_ids-map card_link items (λ c. refl)
block_ids w (Block.steps items) = step_items-ids 0 items
block_ids w (Block.diagram request) = refl
block_ids w (Block.diagram register) = refl

blocks_ids : (w : Setting) (bs : List Block) → doms_ids (doms (map (block_dom w) bs)) ≡ anchors bs
unfolding dom_ids
blocks_ids w [] = unfold anchors in refl
blocks_ids w (b ∷ bs) = rw (block_ids w b, blocks_ids w bs) (sym (anchors-cons b bs))

-- `"#" + id`
abbrev pub fragment_of : String → String
fragment_of id = "#" <> id

toc_links-hrefs :
    (active : String) (items : List TocItem)
    → doms_hrefs (doms (map (toc_link active) items))
      ≡ map (λ (i : TocItem). fragment_of i.id) items
unfolding doms_hrefs
toc_links-hrefs active [] = refl
toc_links-hrefs active (i ∷ is) = ap (λ hs. fragment_of i.id ∷ hs) (toc_links-hrefs active is)

toc_links-ids :
    (active : String) (items : List TocItem) → doms_ids (doms (map (toc_link active) items)) ≡ []
toc_links-ids active items = doms_ids-map (toc_link active) items (λ i. unfold dom_ids in refl)

toc_dom-hrefs :
    (active : String) (items : List TocItem)
    → dom_hrefs (toc_dom active items) ≡ map (λ (i : TocItem). fragment_of i.id) items
unfolding dom_hrefs
toc_dom-hrefs active [] = refl
toc_dom-hrefs active (i ∷ is) =
    append-nil _ ∙ ap (λ hs. fragment_of i.id ∷ hs) (toc_links-hrefs active is)

toc_dom-ids : (active : String) (items : List TocItem) → dom_ids (toc_dom active items) ≡ []
unfolding dom_ids
toc_dom-ids active [] = refl
toc_dom-ids active (i ∷ is) = rw (toc_links-ids active is) refl

blocks_dom-ids : (w : Setting) (bs : List Block) → dom_ids (block_renderer w bs) ≡ anchors bs
unfolding dom_ids
blocks_dom-ids w bs = blocks_ids w bs

-- An article has the ids of its headings, and no other.
pub article_dom-ids :
    (w : Setting) (copied : Bool) (active : String) (page : DocPage) (toc : List TocItem)
    (markdown : String)
    → dom_ids (article_dom w copied active page toc markdown) ≡ anchors page.blocks
unfolding dom_ids
article_dom-ids w copied active page toc markdown =
    simp (node_ids page.description, blocks_ids w page.blocks, toc_dom-ids active toc, append-nil)
      refl

map-map :
    {A : Type 0} (f : A → String) (g : String → String) (xs : List A)
    → map g (map f xs) ≡ map (λ x. g (f x)) xs
map-map f g [] = refl
map-map f g (x ∷ xs) = ap (λ ys. g (f x) ∷ ys) (map-map f g xs)

-- Whatever the page and the state of the browser, the table of contents of a page that is shown as an
-- article has exactly one link to each id of the article, in the order of the document, and the ids
-- are those of the headings.
pub toc_dom-article :
    (w : Setting) (copied : Bool) (active : String) (page : DocPage) (markdown : String)
    → (dom_hrefs (toc_dom active (toc_of page))
        ≡ map fragment_of (dom_ids (article_dom w copied active page (toc_of page) markdown)))
      × (dom_ids (article_dom w copied active page (toc_of page) markdown) ≡ anchors page.blocks)
toc_dom-article w copied active page markdown =
    let ids = article_dom-ids w copied active page (toc_of page) markdown in
    (
      toc_dom-hrefs active (toc_of page)
          ∙ sym (map-map (λ (i : TocItem). i.id) fragment_of (toc_of page))
          ∙ ap (map fragment_of) (toc_of-anchors page ∙ sym ids),
      ids,
    )
