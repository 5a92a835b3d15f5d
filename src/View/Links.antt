-- ===== src/View/Links.antt =====
-- The links of the rendered pages: frontend/src/app/doc/[slug]/page.tsx in its layout,
-- frontend/src/app/page.tsx, and the pages under frontend/src/app/(auth).
use go_mcp_server.Base.{
  String, List, [], ◌∷◌, ◌||◌, ◌&&◌, map, Option, none, some, Bool, true, false, ◌≡◌, refl, arith,
  all, contains, distinct, lookup, lookup-all, subst, begins_with, Bool-cases, inl, inr,
}
use go_mcp_server.Docs.Types.{DocPage}
use go_mcp_server.Docs.Pages.{pages}
use go_mcp_server.Docs.Toc.{anchors, toc_of}
use go_mcp_server.Docs.Links.{served}
use go_mcp_server.Docs.Skill.{route}
use go_mcp_server.Docs.Servers.{server_list}
use go_mcp_server.Docs.Page.{doc_page, render, outcome, property_of}
use go_mcp_server.Docs.Search.{page_entries, tool_entries, build_index}
use go_mcp_server.View.{Dom, node_dom, dom_ids, dom_hrefs}
use go_mcp_server.View.Blocks.{Setting, block_dom}
use go_mcp_server.View.Articles.{page_dom}
use go_mcp_server.View.Bars.{doc_layout, bars}
use go_mcp_server.View.Forms.{
  auth_layout, FormPage, redirected, page_with, sign_in_page, sign_up_page,
}
use go_mcp_server.View.Home.{home}
use go_mcp_server.Keys.{truthy}
use go_mcp_server.View.Ids.{fragment_of}

-- What a link can lead to: an address of the documentation, a fragment of the page, another page of
-- the site, or another site.
abbrev pub resolves : String → List String → String → Bool
resolves base ids href =
    contains (served base) href
    || contains (map fragment_of ids) href
    || contains ("/" ∷ "/sign-in" ∷ route ∷ []) href
    || begins_with href "https://"

abbrev pub all_resolve : String → Dom → Bool
all_resolve base d = all (resolves base (dom_ids d)) (dom_hrefs d)

-- A redirect leads to an address of the documentation, and each link of a form's page resolves.
abbrev pub form_resolves : String → FormPage → Bool
form_resolves base (redirected path) = contains (served base) path
form_resolves base (page_with d) = all_resolve base d

form_page-resolves :
    (base : String) (user_id : Option String)
    → (form_resolves base (sign_in_page user_id) ≡ true)
      × (form_resolves base (sign_up_page user_id) ≡ true)
unfolding auth_layout dom_ids dom_hrefs pages anchors
form_page-resolves base user_id = elim (Bool-cases (truthy user_id)) [
  | inl signed_in ↦ rw signed_in (refl, refl)
  | inr signed_out ↦ rw signed_out (refl, refl)
]

-- Every link of the landing page and of the two pages with the sign-in and the sign-up form leads to
-- a page of the site, to a section that the page has, or to another site; and where a user who is
-- signed in already is sent on from such a form, it is to an address that the site serves.
pub home-resolves :
    (to_html : String → String → String) (mounted : Bool) (base : String) (user_id : Option String)
    → (all_resolve base (home to_html mounted base server_list) ≡ true)
      × (form_resolves base (sign_in_page user_id) ≡ true)
      × (form_resolves base (sign_up_page user_id) ≡ true)
unfolding home dom_ids dom_hrefs pages anchors
home-resolves to_html true base user_id =
    let (sign_in, sign_up) = form_page-resolves base user_id in (refl, sign_in, sign_up)
home-resolves to_html false base user_id =
    let (sign_in, sign_up) = form_page-resolves base user_id in (refl, sign_in, sign_up)

-- The document of a page of the documentation, in its layout.
abbrev pub document : Setting → String → Bool → Bool → Dom → Dom
document w path mounted search_open d =
    doc_layout (bars w.base path w.signed_in mounted search_open) d

abbrev document_passes : Setting → String → Bool → Bool → Option Dom → Bool
document_passes w path mounted search_open none = false
document_passes w path mounted search_open (some d) =
    all_resolve w.base (document w path mounted search_open d)
    && distinct (dom_ids (document w path mounted search_open d))

module _ (base origin path active : String) (to_html : String → String → String)
    (copied_cmd copied_skill search_open copied : Bool) where
  abbrev setting : Bool → Setting
  setting signed_in = record {
    base = base;
    signed_in = signed_in;
    origin = origin;
    copied_cmd = copied_cmd;
    copied_skill = copied_skill;
    to_html = to_html;
  }

  abbrev passes : Bool → Bool → DocPage → Bool
  passes signed_in mounted page =
      document_passes (setting signed_in) path mounted search_open
        (page_dom (setting signed_in) copied active (render base page))

  pages-pass :
      (signed_in mounted : Bool)
      → all (λ (_, page). passes signed_in mounted page) (pages base) ≡ true
  unfolding doc_layout page_dom block_dom dom_ids dom_hrefs pages anchors page_entries build_index
      tool_entries node_dom toc_of
  pages-pass true true = refl
  pages-pass true false = refl
  pages-pass false true = refl
  pages-pass false false = refl

-- What is shown is a page of the table.
page_dom-outcome :
    (w : Setting) (copied : Bool) (active : String) (o : Option DocPage) (is_inherited : Bool)
    {d : Dom}
    → page_dom w copied active (outcome w.base (property_of o is_inherited)) ≡ some d
    → (page : DocPage) × (o ≡ some page) × (page_dom w copied active (render w.base page) ≡ some d)
unfolding page_dom
page_dom-outcome w copied active (some page) is_inherited h = (page, refl, h)
page_dom-outcome w copied active none true h = absurd (ground arith)
page_dom-outcome w copied active none false h = absurd (ground arith)

-- Every document that the site shows for a slug, whoever reads it and in whatever state, has ids
-- that all differ, and each of its links leads to a page of the site, to an element that the same
-- document has, or to another site.
pub page_dom-resolves :
    (w : Setting) (path : String) (mounted search_open copied : Bool) (active slug : String)
    {d : Dom}
    → page_dom w copied active (doc_page w.base slug) ≡ some d
    → (all_resolve w.base (document w path mounted search_open d) ≡ true)
      × (distinct (dom_ids (document w path mounted search_open d)) ≡ true)
unfolding doc_page
page_dom-resolves w path mounted search_open copied active slug {d} shown =
    let (page, found, rendered) =
      page_dom-outcome w copied active (lookup slug (pages w.base)) _ shown in
    let checked =
      lookup-all
        (passes w.base w.origin path active w.to_html w.copied_cmd w.copied_skill search_open copied
          w.signed_in mounted)
        slug (pages w.base)
        (pages-pass w.base w.origin path active w.to_html w.copied_cmd w.copied_skill search_open
          copied w.signed_in mounted)
        found in
    let both : document_passes w path mounted search_open (some d) ≡ true =
      subst (λ (o : Option Dom). document_passes w path mounted search_open o ≡ true) rendered
        checked in
    (ground arith, ground arith)
