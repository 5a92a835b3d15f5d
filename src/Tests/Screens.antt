-- ===== src/Tests/Screens.antt =====
-- Tests of the rendered pages and of the dashboard's screen, and theorems at concrete inputs.
use go_mcp_server.Base.{
  String, List, [], ◌∷◌, map, Option, none, some, true, false, ◌≡◌, refl, all, distinct, contains,
}
use go_mcp_server.Base.{trim, is_space}
use go_mcp_server.Json.{quote, quote_rest, quote_char}
use mathlib.Core.Option
use go_mcp_server.Docs.Types.{DocPage}
use go_mcp_server.Docs.Servers.{server_list}
use go_mcp_server.Docs.Servers.Memory.{memory}
use go_mcp_server.Docs.Nav.{nav}
use go_mcp_server.Docs.Pages.{pages, server_page}
use go_mcp_server.Docs.Toc.{anchors, toc_of}
use go_mcp_server.Docs.Page.{doc_page}
use go_mcp_server.Docs.Links.{served}
use go_mcp_server.Docs.Search.{build_index, page_entries, tool_entries, go}
use go_mcp_server.Docs.Search.Dialog.{keydown, select_page, select_tool, run-served}
use go_mcp_server.Docs.Search.Dialog as Dialog
use go_mcp_server.View.{Dom, nothing, dom_ids, dom_hrefs}
use go_mcp_server.View.Blocks.{Setting}
use go_mcp_server.View.Articles.{page_dom, article_dom, toc_dom}
use go_mcp_server.View.Home.{home}
use go_mcp_server.View.Forms.{sign_in_page, sign_up_page}
use go_mcp_server.View.Ids.{toc_dom-article, fragment_of}
use go_mcp_server.View.Links.{
  all_resolve, form_resolves, document, home-resolves, page_dom-resolves,
}
use go_mcp_server.Dashboard.{
  Summary, Created, Event, State, initial, press_create, press_submit, press_enter, press_cancel,
  press_confirm, press_keep, post_ends, response, object, run, step, is_some, begin_create,
  end_create, create_answered,
}
use go_mcp_server.Dashboard.Screen.{screen}
use go_mcp_server.Dashboard.Screen.Offers.{offers}
use go_mcp_server.Dashboard.Screen.Controls.{run-controls}
use go_mcp_server.Dashboard.Screen.Redacted.{run-redacted, cover, shown_beside}

abbrev local : String
local = "http://localhost:8080"

abbrev plain_html : String → String → String
plain_html code lang = code

abbrev reader : Setting
reader = record {
  base = local;
  signed_in = true;
  origin = "https://relivo.dev";
  copied_cmd = false;
  copied_skill = false;
  to_html = plain_html;
}

abbrev sample : DocPage
sample = server_page local "memory" memory "Memory." []

toc_dom-article_example :
    (dom_hrefs (toc_dom "connect" (toc_of sample))
      ≡ map fragment_of (dom_ids (article_dom reader false "connect" sample (toc_of sample) "")))
    × (dom_ids (article_dom reader false "connect" sample (toc_of sample) "")
        ≡ anchors sample.blocks)
toc_dom-article_example = toc_dom-article reader false "connect" sample ""

home-resolves_example :
    (all_resolve local (home plain_html true local server_list) ≡ true)
    × (form_resolves local (sign_in_page none) ≡ true)
    × (form_resolves local (sign_up_page none) ≡ true)
home-resolves_example = home-resolves plain_html true local none

abbrev dom_or_none : Option Dom → Dom
dom_or_none none = nothing
dom_or_none (some d) = d

-- The page of the memory server, as it is shown.
abbrev memory_page : Dom
memory_page = dom_or_none (page_dom reader false "connect" (doc_page local "memory"))

shown : page_dom reader false "connect" (doc_page local "memory") ≡ some memory_page
unfolding page_dom doc_page pages
shown = refl

page_dom-resolves_example :
    (all_resolve local (document reader "/doc/memory" true false memory_page) ≡ true)
    × (distinct (dom_ids (document reader "/doc/memory" true false memory_page)) ≡ true)
page_dom-resolves_example =
    page_dom-resolves reader "/doc/memory" true false false "connect" "memory" {d = memory_page}
      shown

abbrev laptop : Summary
laptop = record { id = "k1"; label = "Laptop"; masked = "mcp_••6715"; created_at = "2026-01-01" }

abbrev start : State
start = initial (laptop ∷ [])

abbrev format_date : String → String
format_date t = t

-- The create dialog while its POST is awaited.
abbrev sending : State
sending = record start { create_open = true; creating = true; posts = "{\"label\":\"\"}" ∷ [] }

sending-run : run 5 start (press_create ∷ press_submit ∷ []) ≡ some sending
unfolding run step initial begin_create trim is_space quote quote_rest quote_char
sending-run = refl

run-controls_example :
    (offers (screen format_date local 5 sending) press_submit ≡ false)
    × (offers (screen format_date local 5 sending) press_enter ≡ false)
    × (offers (screen format_date local 5 sending) press_cancel ≡ false)
    × (offers (screen format_date local 5 sending) press_confirm ≡ false)
    × (offers (screen format_date local 5 sending) press_keep ≡ false)
unfolding initial
run-controls_example =
    run-controls format_date local 5 (laptop ∷ []) (press_create ∷ press_submit ∷ []) sending
      sending-run

abbrev new_key : String → Created
new_key key = record {
  id = "k2";
  label = "CI";
  masked = "mcp_••0001";
  created_at = "2026-01-02";
  key = key;
}

-- A key is made, and its secret is shown.
abbrev making : String → List Event
making key =
    press_create ∷ press_submit ∷ post_ends (response true (object none (some (new_key key)))) ∷ []

making-run : is_some (run 5 start (making "mcp_one")) ≡ true
unfolding run step initial begin_create end_create create_answered
making-run = refl

run-redacted_example :
    (is_some (run 5 start (making "mcp_one")) ≡ is_some (run 5 start (making "mcp_two")))
    × (Option.map cover (run 5 start (making "mcp_one"))
        ≡ Option.map cover (run 5 start (making "mcp_two")))
    × (shown_beside format_date local 5 (run 5 start (making "mcp_one"))
        ≡ shown_beside format_date local 5 (run 5 start (making "mcp_two")))
run-redacted_example =
    run-redacted format_date local 5 (laptop ∷ []) (making "mcp_one") (making "mcp_two") refl

searching :
    Dialog.run
      (build_index (pages local) nav server_list)
      Dialog.initial
      (keydown true false "K" ∷ select_page 1 ∷ Dialog.press ∷ select_tool 0 ∷ [])
    ≡ some (record { open_ = false; pushed = "/doc/memory#tools" ∷ "/doc/quickstart" ∷ [] })
unfolding Dialog.run Dialog.step build_index page_entries tool_entries go pages
searching = refl

run-served_example :
    all (contains (served local)) ("/doc/memory#tools" ∷ "/doc/quickstart" ∷ []) ≡ true
run-served_example =
    run-served local (keydown true false "K" ∷ select_page 1 ∷ Dialog.press ∷ select_tool 0 ∷ [])
      searching
