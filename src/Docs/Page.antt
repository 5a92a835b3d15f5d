-- ===== src/Docs/Page.antt =====
-- frontend/src/app/doc/[slug]/page.tsx: the page of a slug that the URL names. `base` is
-- `MCP_BASE_URL`.
pub mod Laws
use go_mcp_server.Base.{String, ◌<>◌, List, [], ◌∷◌, Option, none, some, Bool, true, false, map}
use go_mcp_server.Base.{lookup, contains, if◌then◌else◌}
use go_mcp_server.Docs.Types.{DocPage, Node, str, element, link, fragment}
use go_mcp_server.Docs.Pages.{pages}
use go_mcp_server.Docs.Markdown.{page_markdown}
use go_mcp_server.Docs.Toc.{TocItem, toc_of}

-- The names of the properties that every object literal inherits from `Object.prototype`.
abbrev pub object_prototype : List String
object_prototype =
    "constructor" ∷ "__defineGetter__" ∷ "__defineSetter__" ∷ "hasOwnProperty" ∷ "__lookupGetter__"
    ∷ "__lookupSetter__" ∷ "isPrototypeOf" ∷ "propertyIsEnumerable" ∷ "toString" ∷ "valueOf"
    ∷ "__proto__" ∷ "toLocaleString" ∷ []

-- What `object[key]` gives: a property of the literal, one of `Object.prototype` (a function or
-- an object, and so truthy), or `undefined`.
pub data Property {ℓ} (A : Type ℓ) : Type ℓ where
  own : A → Property A
  inherited : Property A
  missing : Property A

abbrev pub property_of {ℓ} : {A : Type ℓ} → Option A → Bool → Property A
property_of (some a) is_inherited = own a
property_of none true = inherited
property_of none false = missing

abbrev pub get_property {ℓ} : {A : Type ℓ} → String → List (String × A) → Property A
get_property key object = property_of (lookup key object) (contains object_prototype key)

-- `generateStaticParams()`: `Object.keys(pages)`
unfoldable pub static_params : String → List String
static_params base = map (λ (slug, _). slug) (pages base)

pub record Metadata : Type 0 where
  pub title : String
  pub description : Option String

abbrev string_of : Node → Option String
string_of (str t) = some t
string_of (element tag children) = none
string_of (link href children) = none
string_of (fragment children) = none

-- `generateMetadata`: an inherited property has neither a title nor a description.
unfoldable pub generate_metadata : String → String → Metadata
generate_metadata base slug = elim (get_property slug (pages base)) [
  | own page ↦ record {
    title = page.title <> " · Relivo docs";
    description = string_of page.description;
  }
  | inherited ↦ record { title = "undefined · Relivo docs"; description = none }
  | missing ↦ record { title = "Not found · Relivo docs"; description = none }
]

pub data Rendered : Type 0 where
  -- `notFound()`, a response with status 404
  not_found : Rendered
  coming_soon : DocPage → Rendered
  -- the page with its table of contents and the text of its copy button
  article : DocPage → List TocItem → String → Rendered
  -- `tocOf` reads `page.blocks.filter` of a value that has no `blocks`
  type_error : Rendered

abbrev pub render : String → DocPage → Rendered
render base page =
    if page.wip then coming_soon page else article page (toc_of page) (page_markdown page base)

abbrev pub outcome : String → Property DocPage → Rendered
outcome base (own page) = render base page
outcome base inherited = type_error
outcome base missing = not_found

-- `DocPage`
unfoldable pub doc_page : String → String → Rendered
doc_page base slug = outcome base (get_property slug (pages base))
