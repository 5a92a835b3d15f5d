-- ===== src/View.antt =====
-- The trees that the site's components render. Of an element's properties the ones kept are its
-- `id`, its `href`, the texts that it is given, and what depends on a state; a class name or an
-- ARIA text is kept only there. A component of a library (lucide-react, the UI kit) is an element
-- of its name; an event handler is a step of the component's state, in the module of the component.
pub mod Site
pub mod Blocks
pub mod Diagrams
pub mod Articles
pub mod Bars
pub mod Forms
pub mod Home
pub mod Ids
pub mod Links
use go_mcp_server.Base.{String, Bool, List, [], ◌∷◌, ◌++◌, Option, none, some, is_empty}
use go_mcp_server.Base.{if◌then◌else◌}
use go_mcp_server.Docs.Types.{
  Icon, bot, brain, compass, key_round, layers, line_chart, radio, rocket, sparkles, waypoints,
  workflow, wrench, Node, Nodes,
}

pub data Attr : Type 0 where
  id_is : String → Attr
  href_is : String → Attr
  -- a property of a name, and its text
  prop : String → String → Attr
  -- a property of a name that depends on a state
  flag : String → Bool → Attr

mutual
  pub data Dom : Type 0 where
    text : String → Dom
    element : String → List Attr → Doms → Dom

  pub data Doms : Type 0 where
    nil : Doms
    cons : Dom → Doms → Doms

abbrev pub doms : List Dom → Doms
doms [] = nil
doms (d ∷ ds) = cons d (doms ds)

-- `<tag …>children</tag>`
abbrev pub el : String → List Attr → List Dom → Dom
el tag attrs children = element tag attrs (doms children)

-- `<>children</>`, and `null`
abbrev pub fragment : List Dom → Dom
fragment children = el "" [] children

abbrev pub nothing : Dom
nothing = fragment []

-- A link, by `Link` of next/link or by `<a>`.
abbrev pub link_to : String → List Dom → Dom
link_to href children = el "Link" (href_is href ∷ []) children

abbrev pub anchor_to : String → List Dom → Dom
anchor_to href children = el "a" (href_is href ∷ []) children

-- `<code>t</code>`
abbrev pub code_of : String → Dom
code_of t = el "code" [] (text t ∷ [])

-- An icon, by the name of its component.
abbrev pub icon : String → Dom
icon name = el name [] []

abbrev pub icon_name : Icon → String
icon_name bot = "Bot"
icon_name brain = "Brain"
icon_name compass = "Compass"
icon_name key_round = "KeyRound"
icon_name layers = "Layers"
icon_name line_chart = "LineChart"
icon_name radio = "Radio"
icon_name rocket = "Rocket"
icon_name sparkles = "Sparkles"
icon_name waypoints = "Waypoints"
icon_name workflow = "Workflow"
icon_name wrench = "Wrench"

-- `o && f(o)`: of an absent or an empty text nothing is rendered.
abbrev pub when_text : Option String → (String → Dom) → List Dom
when_text none f = []
when_text (some t) f = if is_empty t then [] else f t ∷ []

abbrev pub when : Bool → Dom → List Dom
when b d = if b then d ∷ [] else []

-- A `ReactNode` of the documentation.
unfoldable mutual
  pub node_dom : Node → Dom
  node_dom (Node.str t) = text t
  node_dom (Node.element tag children) = element tag [] (nodes_doms children)
  node_dom (Node.link href children) = element "Link" (href_is href ∷ []) (nodes_doms children)
  node_dom (Node.fragment children) = element "" [] (nodes_doms children)

  pub nodes_doms : Nodes → Doms
  nodes_doms Nodes.nil = nil
  nodes_doms (Nodes.cons n ns) = cons (node_dom n) (nodes_doms ns)

abbrev attr_ids : List Attr → List String
attr_ids [] = []
attr_ids (id_is t ∷ attrs) = t ∷ attr_ids attrs
attr_ids (href_is t ∷ attrs) = attr_ids attrs
attr_ids (prop name t ∷ attrs) = attr_ids attrs
attr_ids (flag name b ∷ attrs) = attr_ids attrs

abbrev attr_hrefs : List Attr → List String
attr_hrefs [] = []
attr_hrefs (id_is t ∷ attrs) = attr_hrefs attrs
attr_hrefs (href_is t ∷ attrs) = t ∷ attr_hrefs attrs
attr_hrefs (prop name t ∷ attrs) = attr_hrefs attrs
attr_hrefs (flag name b ∷ attrs) = attr_hrefs attrs

-- The `id`s of a tree, in the order of the document.
unfoldable mutual
  pub dom_ids : Dom → List String
  dom_ids (text t) = []
  dom_ids (element tag attrs children) = attr_ids attrs ++ doms_ids children

  pub doms_ids : Doms → List String
  doms_ids nil = []
  doms_ids (cons d ds) = dom_ids d ++ doms_ids ds

-- The `href`s.
unfoldable mutual
  pub dom_hrefs : Dom → List String
  dom_hrefs (text t) = []
  dom_hrefs (element tag attrs children) = attr_hrefs attrs ++ doms_hrefs children

  pub doms_hrefs : Doms → List String
  doms_hrefs nil = []
  doms_hrefs (cons d ds) = dom_hrefs d ++ doms_hrefs ds
