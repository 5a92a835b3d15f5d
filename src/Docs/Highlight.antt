-- ===== src/Docs/Highlight.antt =====
-- The items that the two navigation bars highlight:
-- frontend/src/components/docs/sidebar.tsx and top-nav.tsx, by the path of the page.
pub mod Laws
use Prim.Native.String.{[], ◌∷◌}
use mathlib.Core.Option.{get_or}
use go_mcp_server.Base.{String, ◌<>◌, List, Char, code, Option, none, some, ℕ, zero, suc, Bool}
use go_mcp_server.Base.{if◌then◌else◌, nat_eq, keep, map, ◌==◌, ◌++◌}
use go_mcp_server.Docs.Types.{NavGroup, NavItem}

abbrev pub is_separator : Char → Bool
is_separator c = nat_eq (code c) b'/'

abbrev pub onto_first : Char → List String → List String
onto_first c List.[] = List.◌∷◌ (c ∷ []) List.[]
onto_first c (List.◌∷◌ part parts) = List.◌∷◌ (c ∷ part) parts

-- `pathname.split("/")`
unfoldable pub split : String → List String
split [] = List.◌∷◌ [] List.[]
split (c ∷ s) = if is_separator c then List.◌∷◌ [] (split s) else onto_first c (split s)

-- `xs[n]`
abbrev pub nth : ℕ → List String → Option String
nth n List.[] = none
nth zero (List.◌∷◌ x xs) = some x
nth (suc n) (List.◌∷◌ x xs) = nth n xs

-- `pathname.split("/")[2] ?? "overview"`
unfoldable pub current : String → String
unfolding split
current path = get_or (nth 2 (split path)) "overview"

-- The items of the top bar that are highlighted: `current === t.slug`.
unfoldable pub highlighted : String → List (String × String) → List (String × String)
highlighted path = keep (λ (slug, _). current path == slug)

abbrev pub items_of : List NavGroup → List NavItem
items_of List.[] = List.[]
items_of (List.◌∷◌ g gs) = g.items ++ items_of gs

-- The items of the sidebar that are active: `pathname === href`.
unfoldable pub active_items : String → List NavGroup → List NavItem
active_items path nav = keep (λ (i : NavItem). path == "/doc/" <> i.slug) (items_of nav)
