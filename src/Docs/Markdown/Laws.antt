-- ===== src/Docs/Markdown/Laws.antt =====
-- What the Markdown of a page lists.
use mathlib.Core.List.{
  append-nil, append_assoc, Mem, mem-cons, mem-append_left, mem-append_right, not-mem-nil,
}
use mathlib.Core.Logic.Or
use go_mcp_server.Base.{String, ◌<>◌, List, [], ◌∷◌, ◌++◌, some, Bool, true, false}
use go_mcp_server.Base.{
  ◌≡◌, refl, sym, ap, ◌∙◌, arith, keep, Bool-cases, inl, inr, trim, trim-clean, is_space, first_is,
  last_is, join, code, if◌then◌else◌,
}
use go_mcp_server.Docs.Types.{Block, DocPage, ServerDoc, ToolDoc}
use go_mcp_server.Docs.Servers.{find_server}
use go_mcp_server.Docs.Markdown.{
  block_lines, push_blocks, page_lines, page_markdown, tool_title, tool_lines, param_lines,
  description_lines,
}

-- The blocks that are prose, or pictures.
abbrev pub is_prose : Block → Bool
is_prose (Block.lead content) = true
is_prose (Block.text content) = true
is_prose (Block.callout variant title content) = true
is_prose (Block.cards items) = true
is_prose (Block.steps items) = true
is_prose (Block.diagram variant) = true
is_prose _ = false

abbrev pub is_listed : Block → Bool
is_listed b = if is_prose b then false else true

-- The lines of the blocks, without the accumulator.
body_lines : String → List Block → List String
body_lines base [] = []
body_lines base (b ∷ bs) = block_lines base b ++ body_lines base bs

push_blocks-body_lines :
    (base : String) (lines : List String) (bs : List Block)
    → push_blocks base lines bs ≡ lines ++ body_lines base bs
unfolding push_blocks body_lines
push_blocks-body_lines base lines [] = rw append-nil
push_blocks-body_lines base lines (b ∷ bs) =
    push_blocks-body_lines base (lines ++ block_lines base b) bs ∙ append_assoc lines _ _

block_lines-prose : (base : String) (b : Block) → is_prose b ≡ true → block_lines base b ≡ []
unfolding block_lines
block_lines-prose base (Block.heading id text icon) h = cc
block_lines-prose base b h = ground arith

body_lines-keep :
    (base : String) (bs : List Block) → body_lines base (keep is_listed bs) ≡ body_lines base bs
unfolding body_lines
body_lines-keep base [] = refl
body_lines-keep base (b ∷ bs) = elim (Bool-cases (is_prose b)) [
  | inl prose ↦ rw (prose, block_lines-prose base b prose) (body_lines-keep base bs)
  | inr listed ↦ rw listed (ap (λ ls. block_lines base b ++ ls) (body_lines-keep base bs))
]

push_blocks-keep :
    (base : String) (lines : List String) (bs : List Block)
    → push_blocks base lines (keep is_listed bs) ≡ push_blocks base lines bs
push_blocks-keep base lines bs =
    push_blocks-body_lines base lines (keep is_listed bs)
    ∙ ap (λ ls. lines ++ ls) (body_lines-keep base bs)
    ∙ sym (push_blocks-body_lines base lines bs)

-- The Markdown depends only on the title, the description and the blocks that are headings, code,
-- connections, tools or the skill: prose and pictures leave no trace in it.
pub page_markdown-keep :
    (page : DocPage) (base : String)
    → page_markdown (record page { blocks = keep is_listed page.blocks }) base
      ≡ page_markdown page base
unfolding page_markdown
page_markdown-keep page base =
    ap (λ ls. trim (join "\n" ls) <> "\n") (push_blocks-keep base _ page.blocks)

-- The copied text is a body and one line feed, where the body neither begins nor ends with white
-- space.
pub page_markdown-clean :
    (page : DocPage) (base : String)
    → (body : String) × (page_markdown page base ≡ body <> "\n")
      × (first_is (λ c. is_space (code c)) body ≡ false)
      × (last_is (λ c. is_space (code c)) body ≡ false)
unfolding page_markdown
page_markdown-clean page base =
    let text = join "\n" (page_lines page base) in
    let (first, last) = trim-clean text in (trim text, refl, first, last)

tool_lines-mem : (t : ToolDoc) (ts : List ToolDoc) → Mem t ts → Mem (tool_title t) (tool_lines ts)
tool_lines-mem t [] m = absurd (not-mem-nil m)
tool_lines-mem t (u ∷ ts) m =
    Or.elim squash₁ (mem-cons.0 m) (λ e. mem-cons.1 (Or.inl (ap tool_title e)))
      (λ later.
        mem-append_right (tool_title u ∷ "" ∷ u.summary ∷ "" ∷ []) (
          mem-append_right (param_lines u.params)
            (mem-cons.1 (Or.inr (tool_lines-mem t ts later)))))

body_lines-mem :
    (base line : String) (b : Block) (bs : List Block)
    → Mem b bs
    → Mem line (block_lines base b)
    → Mem line (body_lines base bs)
unfolding body_lines
body_lines-mem base line b [] m l = absurd (not-mem-nil m)
body_lines-mem base line b (c ∷ bs) m l =
    Or.elim squash₁ (mem-cons.0 m) (λ e. mem-append_left _ (rw e at l))
      (λ later. mem-append_right (block_lines base c) (body_lines-mem base line b bs later l))

-- A page with the tools of a server lists each tool of that server by its name.
pub page_lines-mem_tool :
    (page : DocPage) (base key : String) {s : ServerDoc} (t : ToolDoc)
    → Mem (Block.tools key) page.blocks
    → find_server key ≡ some s
    → Mem t s.tools
    → Mem (tool_title t) (page_lines page base)
unfolding page_lines
page_lines-mem_tool page base key t listed found m =
    let here : Mem (tool_title t) (block_lines base (Block.tools key)) =
      unfold block_lines in rw (found, block_lines) (tool_lines-mem t _ m) in
    rw push_blocks-body_lines (
      mem-append_right (("# " <> page.title) ∷ "" ∷ description_lines page.description)
        (body_lines-mem base (tool_title t) (Block.tools key) _ listed here))
