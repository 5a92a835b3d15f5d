-- ===== src/Docs/Highlight/Laws.antt =====
-- Which items are highlighted on a page.
use Prim.Native.String.{[], ◌∷◌}
use mathlib.Core.Option.{get_or}
use text.Mathlib.TextLemmas.{cons-append, nil-append}
use go_mcp_server.Base.{String, ◌<>◌, List, ◌≤◌, true, false, not, ◌≡◌, refl}
use go_mcp_server.Base.{all_chars, arith, contains, distinct, keep, length, map, ◌==◌, eq_iff}
use go_mcp_server.Base.{◌∙◌, ap}
use go_mcp_server.Docs.Types.{NavItem}
use go_mcp_server.Docs.Nav.{nav, top_nav}
use go_mcp_server.Docs.Highlight.{
  is_separator, split, nth, current, highlighted, active_items, items_of,
}

split-one :
    (s : String) → all_chars (λ c. not (is_separator c)) s ≡ true → split s ≡ List.◌∷◌ s List.[]
unfolding split
split-one [] h = refl
split-one (c ∷ s) h = ground (arith, split-one s)

split-append :
    (s t : String)
    → all_chars (λ c. not (is_separator c)) s ≡ true
    → split (s <> ("/" ∷ t)) ≡ List.◌∷◌ s (split t)
unfolding split
split-append [] t h = rw nil-append refl
split-append (c ∷ s) t h = let rest = split-append s t in rw cons-append (ground (arith, rest))

doc-append : (s : String) → "/doc/" <> s ≡ "/" ∷ "d" ∷ "o" ∷ "c" ∷ "/" ∷ s
doc-append s =
    cons-append "/" "doc/" s
    ∙ ap (λ t. "/" ∷ t)
        (cons-append "d" "oc/" s
          ∙ ap (λ t. "d" ∷ t)
              (cons-append "o" "c/" s
                ∙ ap (λ t. "o" ∷ t)
                    (cons-append "c" "/" s
                      ∙ ap (λ t. "c" ∷ t)
                          (cons-append "/" [] s ∙ ap (λ t. "/" ∷ t) (nil-append s)))))

split-doc : (s : String) → split ("/doc/" <> s) ≡ List.◌∷◌ [] (List.◌∷◌ "doc" (split s))
unfolding split
split-doc s = ap split (doc-append s)

-- On the page `/doc/<slug>`, and on everything below it, the top bar's current slug is the page's.
pub current-slug :
    (slug below : String)
    → all_chars (λ c. not (is_separator c)) slug ≡ true
    → (current ("/doc/" <> slug) ≡ slug) × (current ("/doc/" <> (slug <> ("/" ∷ below))) ≡ slug)
unfolding current
current-slug slug below h = (
  ap (λ parts. get_or (nth 2 parts) "overview")
      (split-doc slug ∙ ap (λ parts. List.◌∷◌ [] (List.◌∷◌ "doc" parts)) (split-one slug h)),
  ap (λ parts. get_or (nth 2 parts) "overview")
      (split-doc (slug <> ("/" ∷ below))
        ∙ ap (λ parts. List.◌∷◌ [] (List.◌∷◌ "doc" parts)) (split-append slug below h)),
)

kept-absent {ℓ} :
    {A : Type ℓ} (name : A → String) (xs : List A) (k : String)
    → contains (map name xs) k ≡ false
    → length (keep (λ x. k == name x) xs) ≤ 0
kept-absent name List.[] k h = omega arith
kept-absent name (List.◌∷◌ x xs) k h =
    ground (arith, eq_iff k (name x), eq_iff (name x) k, kept-absent name xs k)

-- In a list without two equal names, at most one entry has a given name.
kept-one {ℓ} :
    {A : Type ℓ} (name : A → String) (xs : List A) (k : String)
    → distinct (map name xs) ≡ true
    → length (keep (λ x. k == name x) xs) ≤ 1
kept-one name List.[] k h = omega arith
kept-one name (List.◌∷◌ x xs) k h =
    ground (arith, eq_iff k (name x), eq_iff (name x) k, kept-absent name xs k, kept-one name xs k)

-- Whatever the path, each bar highlights at most one item.
pub highlighted-one :
    (path : String) → (length (highlighted path top_nav) ≤ 1) × (length (active_items path nav) ≤ 1)
unfolding highlighted active_items
highlighted-one path = (
  kept-one (λ (slug, _). slug) top_nav (current path) refl,
  kept-one (λ (i : NavItem). "/doc/" <> i.slug) (items_of nav) path refl,
)

abbrev item_href : NavItem → String
item_href i = "/doc/" <> i.slug
