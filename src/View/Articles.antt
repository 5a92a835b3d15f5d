-- ===== src/View/Articles.antt =====
-- The article of a page: frontend/src/app/doc/[slug]/page.tsx, with
-- frontend/src/components/docs/coming-soon.tsx, toc.tsx and copy-page-button.tsx.
use mathlib.Core.Option.{get_or}
use go_mcp_server.Base.{String, ◌<>◌, List, [], ◌∷◌, ◌++◌, Option, none, some, Bool, map, ◌==◌}
use go_mcp_server.Docs.Types.{DocPage, Feature}
use go_mcp_server.Docs.Toc.{TocItem}
use go_mcp_server.Docs.Page.{Rendered, not_found, coming_soon, article, type_error}
use go_mcp_server.View.{
  Dom, text, el, flag, href_is, prop, anchor_to, icon, icon_name, nothing, node_dom,
}
use go_mcp_server.View.Site.{site}
use go_mcp_server.View.Blocks.{Setting, block_renderer, copy_icon}

abbrev pub feature_card : Feature → Dom
feature_card f = el "div" [] (el "h3" [] (text f.title ∷ []) ∷ el "p" [] (text f.body ∷ []) ∷ [])

-- `page.wipFeatures && page.wipFeatures.length > 0 && …`
abbrev pub whats_coming : List Feature → List Dom
whats_coming [] = []
whats_coming (f ∷ fs) =
    el "div" []
      (el "h2" [] (text "What’s coming" ∷ []) ∷ el "div" [] (map feature_card (f ∷ fs)) ∷ [])
    ∷ []

-- `ComingSoon`
abbrev pub coming_soon_dom : DocPage → Dom
coming_soon_dom page = el "div" [] (
    el "div" [] (text page.eyebrow ∷ [])
    ∷ el "span" []
        (el "span" [] (el "span" [] [] ∷ el "span" [] [] ∷ []) ∷ text "Under development" ∷ [])
    ∷ el "div" [] (
        el "div" []
          (icon (get_or (mathlib.Core.Option.map icon_name page.wip_icon) "Construction") ∷ [])
        ∷ el "div" []
            (el "h1" [] (text page.title ∷ []) ∷ el "p" [] (node_dom page.description ∷ []) ∷ [])
        ∷ [])
    ∷ (whats_coming page.wip_features
        ++ el "div" [] (
            el "div" [] (
              el "div" [] (text "Preview the work in progress" ∷ [])
              ∷ el "p" [] (
                  text
                    "This surface is still being built. Follow along in the live preview; it changes often and isn’t final."
                  ∷ [])
              ∷ [])
            ∷ el "Button" []
                (anchor_to site.console (text "Open preview " ∷ icon "ArrowUpRight" ∷ []) ∷ [])
            ∷ [])
          ∷ []))

-- `CopyPageButton`, by its text and its state
abbrev pub copy_page_button : Bool → String → Dom
copy_page_button copied markdown = el "div" (prop "text" markdown ∷ []) (
    el "Button" [] (copy_icon copied ∷ text "Copy page" ∷ [])
    ∷ el "div" [] []
    ∷ el "Button" [] (icon "ChevronDown" ∷ [])
    ∷ [])

abbrev pub toc_link : String → TocItem → Dom
toc_link active item = el "li" [] (
    el "a" (href_is ("#" <> item.id) ∷ flag "active" (active == item.id) ∷ []) (text item.text ∷ [])
    ∷ [])

-- `Toc`, by its state
abbrev pub toc_dom : String → List TocItem → Dom
toc_dom active [] = nothing
toc_dom active (item ∷ items) = el "nav" [] (
    el "div" [] (icon "List" ∷ text "On this page" ∷ [])
    ∷ el "ul" [] (map (toc_link active) (item ∷ items))
    ∷ [])

-- The article and the table of contents beside it; `copied` and `active` are the states of the copy
-- button and of the table of contents.
abbrev pub article_dom : Setting → Bool → String → DocPage → List TocItem → String → Dom
article_dom w copied active page toc markdown = el "div" [] (
    el "article" [] (
      el "div" [] (text page.eyebrow ∷ [])
      ∷ el "div" [] (el "h1" [] (text page.title ∷ []) ∷ copy_page_button copied markdown ∷ [])
      ∷ el "p" [] (node_dom page.description ∷ [])
      ∷ el "div" [] (block_renderer w page.blocks ∷ [])
      ∷ [])
    ∷ toc_dom active toc
    ∷ [])

-- What `DocPage` renders; on `notFound()` and on an error another page is shown.
unfoldable pub page_dom : Setting → Bool → String → Rendered → Option Dom
page_dom w copied active not_found = none
page_dom w copied active (coming_soon page) =
    some (el "div" [] (el "article" [] (coming_soon_dom page ∷ []) ∷ []))
page_dom w copied active (article page toc markdown) =
    some (article_dom w copied active page toc markdown)
page_dom w copied active type_error = none
