-- ===== src/Docs/Search/Dialog.antt =====
-- The state of `SearchButton`, frontend/src/components/docs/search-command.tsx: whether its dialog is
-- open, and the addresses that it has pushed to the router, the last one first. The dialog lists the
-- entries of pages and those of tools; which of them match a query is cmdk's.
use go_mcp_server.Base.{
  String, List, [], ◌∷◌, ℕ, zero, suc, Option, none, some, Bool, true, false, not, ◌&&◌, ◌||◌, ◌==◌,
  ◌≡◌, refl, arith, all, contains, keep, to_lower, if◌then◌else◌, Option-cases, Bool-cases, inl,
  inr, some-injective, subst,
}
use go_mcp_server.Docs.Nav.{nav}
use go_mcp_server.Docs.Servers.{server_list}
use go_mcp_server.Docs.Pages.{pages}
use go_mcp_server.Docs.Search.{Entry, build_index, go, page_entries, tool_entries, in_group}
use go_mcp_server.Docs.Links.{served}
use go_mcp_server.Docs.Links.Laws.{navigation-served}

pub record State : Type 0 where
  pub open_ : Bool
  pub pushed : List String

abbrev pub initial : State
initial = record { open_ = false; pushed = [] }

pub data Event : Type 0 where
  -- a key that goes down anywhere on the page
  keydown : (meta ctrl : Bool) (key : String) → Event
  -- the button “Search...”
  press : Event
  -- the dialog asks to be opened or closed
  open_change : Bool → Event
  -- the n-th of the page items, or of the tool items, is chosen
  select_page select_tool : (n : ℕ) → Event

-- `(e.metaKey || e.ctrlKey) && e.key.toLowerCase() === "k"`
abbrev pub is_shortcut : Bool → Bool → String → Bool
is_shortcut meta ctrl key = (meta || ctrl) && to_lower key == "k"

abbrev pub nth_entry : ℕ → List Entry → Option Entry
nth_entry n [] = none
nth_entry zero (e ∷ es) = some e
nth_entry (suc n) (e ∷ es) = nth_entry n es

-- `go`
abbrev pub chosen : State → Option Entry → Option State
chosen s none = none
chosen s (some e) = some (record s { open_ = false; pushed = go e ∷ s.pushed })

-- What an event does; an item can be chosen while the dialog is open.
unfoldable pub step : List Entry → State → Event → Option State
step index s (keydown meta ctrl key) =
    some (record s { open_ = if is_shortcut meta ctrl key then not s.open_ else s.open_ })
step index s press = some (record s { open_ = true })
step index s (open_change open_) = some (record s { open_ = open_ })
step index s (select_page n) = if s.open_ then chosen s (nth_entry n (page_entries index)) else none
step index s (select_tool n) = if s.open_ then chosen s (nth_entry n (tool_entries index)) else none

unfoldable pub run : List Entry → State → List Event → Option State
unfolding step
run index s [] = some s
run index s (e ∷ es) = elim (step index s e) [ none ↦ none | some s' ↦ run index s' es ]

module _ (p : Entry → Bool) where
  nth_entry-all :
      (n : ℕ) (es : List Entry) {e : Entry} → all p es ≡ true → nth_entry n es ≡ some e → p e ≡ true
  nth_entry-all n [] h found = absurd (ground arith)
  nth_entry-all zero (e ∷ es) h found = ground arith
  nth_entry-all (suc n) (e ∷ es) h found = nth_entry-all n es (ground arith) found

  all-keep : (q : Entry → Bool) (es : List Entry) → all p es ≡ true → all p (keep q es) ≡ true
  all-keep q [] h = refl
  all-keep q (e ∷ es) h = ground (arith, all-keep q es)

-- A choice keeps the pushed addresses good, and closes the dialog.
chosen-all :
    (p : String → Bool) (n : ℕ) (es : List Entry) (s s' : State)
    → all (λ e. p (go e)) es ≡ true
    → all p s.pushed ≡ true
    → chosen s (nth_entry n es) ≡ some s'
    → (all p s'.pushed ≡ true) × (s'.open_ ≡ false)
chosen-all p n es s s' good old h = elim (Option-cases (nth_entry n es)) [
  | inl missing ↦ absurd (ground arith)
  | inr (e, found) ↦
      let new = nth_entry-all (λ e. p (go e)) n es good found in
      let stepped : some (record s { open_ = false; pushed = go e ∷ s.pushed }) ≡ some s' =
        rw found at h in
      subst (λ (t : State). (all p t.pushed ≡ true) × (t.open_ ≡ false))
        (some-injective _ _ stepped) (ground arith, refl)
]

abbrev IsServed : String → State → Type 0
IsServed base s = all (contains (served base)) s.pushed ≡ true

site_index : String → List Entry
site_index base = build_index (pages base) nav server_list

step-IsServed :
    (base : String) (s s' : State) (e : Event)
    → IsServed base s
    → step (site_index base) s e ≡ some s'
    → IsServed base s'
unfolding step site_index page_entries tool_entries
step-IsServed base s s' (keydown meta ctrl key) h taken =
    subst (IsServed base) (some-injective _ _ taken) h
step-IsServed base s s' press h taken = subst (IsServed base) (some-injective _ _ taken) h
step-IsServed base s s' (open_change open_) h taken =
    subst (IsServed base) (some-injective _ _ taken) h
step-IsServed base s s' (select_page n) h taken = elim (Bool-cases s.open_) [
  | inl shown ↦
      let pick : chosen s (nth_entry n (page_entries (site_index base))) ≡ some s' =
        rw shown at taken in
      (chosen-all (contains (served base)) n (page_entries (site_index base)) s s'
        (all-keep (λ e. contains (served base) (go e)) (in_group "Pages") (site_index base)
          (navigation-served base).2)
        h pick).0
  | inr hidden ↦ absurd (ground arith)
]
step-IsServed base s s' (select_tool n) h taken = elim (Bool-cases s.open_) [
  | inl shown ↦
      let pick : chosen s (nth_entry n (tool_entries (site_index base))) ≡ some s' =
        rw shown at taken in
      (chosen-all (contains (served base)) n (tool_entries (site_index base)) s s'
        (all-keep (λ e. contains (served base) (go e)) (in_group "Tools") (site_index base)
          (navigation-served base).2)
        h pick).0
  | inr hidden ↦ absurd (ground arith)
]

run-IsServed :
    (base : String) (s : State) (es : List Event) {s' : State}
    → IsServed base s
    → run (site_index base) s es ≡ some s'
    → IsServed base s'
unfolding run
run-IsServed base s [] h ran = subst (IsServed base) (some-injective _ _ ran) h
run-IsServed base s (e ∷ es) {s'} h ran = elim (Option-cases (step (site_index base) s e)) [
  | inl refused ↦ absurd (ground arith)
  | inr (t, taken) ↦
      let rest : run (site_index base) t es ≡ some s' = ground arith in
      run-IsServed base t es (step-IsServed base s t e h taken) rest
]

-- Whatever is done with the search dialog, every address that it sends the reader to is one that
-- the site serves.
pub run-served :
    (base : String) (es : List Event) {s : State}
    → run (build_index (pages base) nav server_list) initial es ≡ some s
    → all (contains (served base)) s.pushed ≡ true
unfolding site_index
run-served base es ran = run-IsServed base initial es refl ran
