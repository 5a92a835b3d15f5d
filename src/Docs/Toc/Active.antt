-- ===== src/Docs/Toc/Active.antt =====
-- The state of frontend/src/components/docs/toc.tsx. The component observes the elements of its
-- items that exist on the page, and each report of the observer is a list of entries.
use mathlib.Core.List.{foldl}
use mathlib.Core.Bool.{and-eq-true_iff}
use go_mcp_server.Base.{String, List, [], ◌∷◌, Bool, true, map, ◌≡◌}
use go_mcp_server.Base.{if◌then◌else◌, contains, keep, all, all_mono, arith}
use text.Mathlib.TextPositions.{eq_refl}
use go_mcp_server.Docs.Toc.{TocItem}

-- `IntersectionObserverEntry`: `target.id` and `isIntersecting`
pub record Entry : Type 0 where
  pub target : String
  pub is_intersecting : Bool

-- `items[0]?.id ?? ""`
abbrev pub initial : List TocItem → String
initial [] = ""
initial (item ∷ items) = item.id

-- The callback: the loop over the entries, each of which may set the state.
unfoldable pub report : String → List Entry → String
report active [] = active
report active (e ∷ es) = report (if e.is_intersecting then e.target else active) es

-- The targets that the effect observes: the items whose element is on the page.
unfoldable pub observed : List String → List TocItem → List String
observed elements items = keep (contains elements) (map (λ (t : TocItem). t.id) items)

-- The state after the reports that came in.
unfoldable pub after : List TocItem → List (List Entry) → String
unfolding report
after items reports = foldl report (initial items) reports

module _ (ids : List String) where
  report-contains :
      (active : String) (es : List Entry)
      → contains ids active ≡ true
      → all (λ e. contains ids e.target) es ≡ true
      → contains ids (report active es) ≡ true
  unfolding report
  report-contains active [] h k = h
  report-contains active (e ∷ es) h k =
      ground (arith, report-contains active es, report-contains e.target es)

  reports-contains :
      (active : String) (reports : List (List Entry))
      → contains ids active ≡ true
      → all (λ es. all (λ e. contains ids e.target) es) reports ≡ true
      → contains ids (foldl report active reports) ≡ true
  reports-contains active [] h k = h
  reports-contains active (es ∷ reports) h k =
      let (now, later) = (and-eq-true_iff _ _).0 k in
      reports-contains (report active es) reports (report-contains active es h now) later

-- The targets that a report may name: those that are observed.
abbrev pub IsReported : List String → List (List Entry) → Type 0
IsReported targets reports = all (λ es. all (λ e. contains targets e.target) es) reports ≡ true

contains-keep :
    (p : String → Bool) (xs : List String) (k : String)
    → contains (keep p xs) k ≡ true
    → contains xs k ≡ true
contains-keep p [] k h = h
contains-keep p (x ∷ xs) k h = ground (arith, contains-keep p xs k)

-- The highlighted entry is always one of the table of contents, whatever the observer reports of
-- the elements that the component observes.
pub after-contains :
    (elements : List String) (item : TocItem) (items : List TocItem) (reports : List (List Entry))
    → IsReported (observed elements (item ∷ items)) reports
    → contains (map (λ (t : TocItem). t.id) (item ∷ items)) (after (item ∷ items) reports) ≡ true
unfolding after observed
after-contains elements item items reports h =
    let ids = map (λ (t : TocItem). t.id) (item ∷ items) in
    let seen = keep (contains elements) ids in
    reports-contains ids item.id reports (rw (eq_refl item.id)) (
      all_mono (all (λ e. contains seen e.target)) (all (λ e. contains ids e.target)) reports
        (λ es.
          all_mono (λ e. contains seen e.target) (λ e. contains ids e.target) es
            (λ e. contains-keep (contains elements) ids e.target))
        h)
