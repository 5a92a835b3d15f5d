-- ===== src/Docs/Page/Laws.antt =====
-- Which slugs are rendered, not found, or fail.
use go_mcp_server.Base.{String, Option, none, some, Bool, true, false, ◌≡◌, ◌↔◌, refl}
use go_mcp_server.Base.{lookup, contains, all, all-contains, ◌≢◌, arith}
use go_mcp_server.Docs.Types.{DocPage}
use go_mcp_server.Docs.Pages.{pages}
use go_mcp_server.Docs.Page.{
  object_prototype, property_of, not_found, type_error, doc_page, render, outcome,
}

render-ne-not_found : (base : String) (page : DocPage) → render base page ≢ not_found
render-ne-not_found base page e = ground arith

outcome-not_found_iff :
    (base : String) (o : Option DocPage) (is_inherited : Bool)
    → (outcome base (property_of o is_inherited) ≡ not_found)
      ↔ ((o ≡ none) × (is_inherited ≡ false))
outcome-not_found_iff base (some page) b =
    (λ e. absurd (render-ne-not_found base page e), λ (e, _). cc)
outcome-not_found_iff base none true = (λ e. cc, λ (_, e). cc)
outcome-not_found_iff base none false = (λ e. (refl, refl), λ e. refl)

-- A slug is answered by 404 exactly when no page has it and it is no name of `Object.prototype`.
pub doc_page-not_found_iff :
    (base slug : String)
    → (doc_page base slug ≡ not_found)
      ↔ ((lookup slug (pages base) ≡ none) × (contains object_prototype slug ≡ false))
unfolding doc_page
doc_page-not_found_iff base slug = outcome-not_found_iff base _ _

abbrev is_none : Option DocPage → Bool
is_none none = true
is_none (some page) = false

object_prototype-no_page :
    (base : String) → all (λ name. is_none (lookup name (pages base))) object_prototype ≡ true
unfolding pages
object_prototype-no_page base = refl

is_none-eq : (o : Option DocPage) → is_none o ≡ true → o ≡ none
is_none-eq none h = refl
is_none-eq (some page) h = cc

outcome-inherited :
    (base : String) (o : Option DocPage) (is_inherited : Bool)
    → is_none o ≡ true
    → is_inherited ≡ true
    → outcome base (property_of o is_inherited) ≡ type_error
outcome-inherited base none true h k = refl
outcome-inherited base _ _ h k = cc

-- A slug that names a property of `Object.prototype` has no page, and rendering it fails with a
-- type error in place of the 404 of every other unknown slug.
pub doc_page-inherited :
    (base slug : String)
    → contains object_prototype slug ≡ true
    → (lookup slug (pages base) ≡ none) × (doc_page base slug ≡ type_error)
unfolding doc_page
doc_page-inherited base slug h =
    let unlisted =
      all-contains (λ name. is_none (lookup name (pages base))) object_prototype slug
        (object_prototype-no_page base) h in
    (is_none-eq _ unlisted, outcome-inherited base _ _ unlisted h)
