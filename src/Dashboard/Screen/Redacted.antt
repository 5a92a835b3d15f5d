-- ===== src/Dashboard/Screen/Redacted.antt =====
-- The secrets of keys do not reach what the dashboard shows, but for the reveal dialog.
use mathlib.Core.Option
use go_mcp_server.Base.{
  String, ℕ, List, [], ◌∷◌, map, Option, none, some, Bool, true, false, ◌≡◌, refl, ap, sym, ◌∙◌,
  Option-cases, not, ◌&&◌, leb, if◌then◌else◌, inl, inr,
}
use go_mcp_server.Dashboard.{
  State, Summary, Created, not_json, null_data, object, Reply, response, rejected, Event,
  press_create, press_create_empty, type_label, press_enter, press_submit, press_cancel,
  close_create, close_reveal, press_revoke, press_confirm, press_keep, close_confirm, post_ends,
  delete_ends, step, when, at_limit, no_keys, utf16_length, lists, run, initial, end_create,
  create_answered, begin_create, begin_delete, end_delete, delete_answered, is_some,
}
use go_mcp_server.Dashboard.Screen.{
  Tree, Trees, text, node, button, titled, label_field, copy_button, dialog, nil, cons, screen,
}

abbrev no_secret : Option Created → Option Created
no_secret none = none
no_secret (some c) = some (record c { key = "" })

-- An answer without its secret.
abbrev pub redacted : Reply → Reply
redacted rejected = rejected
redacted (response ok not_json) = response ok not_json
redacted (response ok null_data) = response ok null_data
redacted (response ok (object e c)) = response ok (object e (no_secret c))

abbrev pub redact : Event → Event
redact (post_ends reply) = post_ends (redacted reply)
redact e = e

abbrev covered : Option String → Option String
covered none = none
covered (some key) = some ""

-- A state whose revealed secret is replaced by an empty text.
abbrev pub cover : State → State
cover s = record s { revealed = covered s.revealed }

end_create-cover :
    (reply : Reply) (s : State) → end_create (redacted reply) (cover s) ≡ cover (end_create reply s)
unfolding end_create create_answered
end_create-cover rejected s = refl
end_create-cover (response ok not_json) s = refl
end_create-cover (response ok null_data) s = refl
end_create-cover (response true (object e none)) s = refl
end_create-cover (response true (object e (some c))) s = refl
end_create-cover (response false (object e none)) s = refl
end_create-cover (response false (object e (some c))) s = refl

end_delete-cover :
    (k : Summary) (reply : Reply) (s : State)
    → end_delete k reply (cover s) ≡ cover (end_delete k reply s)
unfolding end_delete delete_answered
end_delete-cover k rejected s = refl
end_delete-cover k (response true d) s = refl
end_delete-cover k (response false not_json) s = refl
end_delete-cover k (response false null_data) s = refl
end_delete-cover k (response false (object e c)) s = refl

when-cover : (b : Bool) (s : State) → when b (cover s) ≡ Option.map cover (when b s)
when-cover true s = refl
when-cover false s = refl

enter-cover :
    (creating : Bool) (s : State)
    → (if creating then cover s else begin_create (cover s))
      ≡ cover (if creating then s else begin_create s)
unfolding begin_create
enter-cover true s = refl
enter-cover false s = refl

begin_delete-cover : (s : State) → begin_delete (cover s) ≡ cover (begin_delete s)
unfolding begin_delete
begin_delete-cover s = elim (Option-cases s.pending_delete) [
  | inl nothing ↦ rw nothing refl
  | inr (k, pending) ↦ rw pending refl
]

is_some-covered : (o : Option String) → is_some (covered o) ≡ is_some o
is_some-covered none = refl
is_some-covered (some key) = refl

answered-cover :
    {A : Type 0} (xs : List A) (f g : A → List A → State)
    → ((x : A) (rest : List A) → f x rest ≡ cover (g x rest))
    → (elim xs as (λ _. Option State) [ [] ↦ none | x ∷ rest ↦ some (f x rest) ])
      ≡ Option.map cover (elim xs as (λ _. Option State) [ [] ↦ none | x ∷ rest ↦ some (g x rest) ])
answered-cover [] f g h = refl
answered-cover (x ∷ xs) f g h = ap some (h x xs)

step-cover :
    (max : ℕ) (s : State) (e : Event)
    → step max (cover s) (redact e) ≡ Option.map cover (step max s e)
unfolding step begin_create
step-cover max s (post_ends reply) =
    answered-cover s.posts _ _ (λ body rest. end_create-cover reply (record s { posts = rest }))
step-cover max s (delete_ends reply) =
    answered-cover s.deletes _ _ (λ k rest. end_delete-cover k reply (record s { deletes = rest }))
step-cover max s press_confirm =
    rw (begin_delete-cover s)
      (when-cover (is_some s.pending_delete && not s.deleting) (begin_delete s))
step-cover max s press_create = when-cover (not (at_limit max s)) (record s { create_open = true })
step-cover max s press_create_empty = when-cover (no_keys s.keys) (record s { create_open = true })
step-cover max s (type_label t) =
    when-cover (s.create_open && leb (utf16_length t) 60) (record s { label = t })
step-cover max s press_enter =
    ap (when s.create_open) (enter-cover s.creating s)
    ∙ when-cover s.create_open (if s.creating then s else begin_create s)
step-cover max s press_submit = when-cover (s.create_open && not s.creating) (begin_create s)
step-cover max s press_cancel =
    when-cover (s.create_open && not s.creating) (record s { create_open = false })
step-cover max s close_create = when-cover s.create_open (record s { create_open = false })
step-cover max s close_reveal =
    rw (is_some-covered s.revealed) (when-cover (is_some s.revealed) (record s { revealed = none }))
step-cover max s (press_revoke k) =
    when-cover (lists s.keys k) (record s { pending_delete = some k })
step-cover max s press_keep =
    when-cover (is_some s.pending_delete && not s.deleting) (record s { pending_delete = none })
step-cover max s close_confirm =
    when-cover (is_some s.pending_delete) (record s { pending_delete = none })

run-cover :
    (max : ℕ) (s : State) (es : List Event)
    → run max (cover s) (map redact es) ≡ Option.map cover (run max s es)
unfolding run
run-cover max s [] = refl
run-cover max s (e ∷ es) = elim (Option-cases (step max s e)) [
  | inl refused ↦
      let e' = step-cover max s e ∙ ap (Option.map cover) refused in rw (run, e', refused) refl
  | inr (s', taken) ↦
      let e' = step-cover max s e ∙ ap (Option.map cover) taken in
      rw (run, e', taken) (run-cover max s' es)
]

is_some-cover : (o : Option State) → is_some (Option.map cover o) ≡ is_some o
is_some-cover none = refl
is_some-cover (some s) = refl

-- A screen without the content of the reveal dialog.
unfoldable mutual
  pub beside : Tree → Tree
  beside (text t) = text t
  beside (node tag children) = node tag (all_beside children)
  beside (button disabled on_click children) = button disabled on_click (all_beside children)
  beside (titled title t) = titled title (beside t)
  beside (label_field id placeholder value max_length sends) =
      label_field id placeholder value max_length sends
  beside (copy_button value label) = copy_button value label
  beside (dialog open_ close_reveal children) = dialog open_ close_reveal nil
  beside (dialog open_ on_close children) = dialog open_ on_close (all_beside children)

  all_beside : Trees → Trees
  all_beside nil = nil
  all_beside (cons t ts) = cons (beside t) (all_beside ts)

beside-cover :
    (format_date : String → String) (base : String) (max : ℕ) (s : State)
    → beside (screen format_date base max (cover s)) ≡ beside (screen format_date base max s)
unfolding beside screen
beside-cover format_date base max s = rw (is_some-covered s.revealed) refl

-- What is shown after some events, without the content of the reveal dialog.
abbrev pub shown_beside : (String → String) → String → ℕ → Option State → Option Tree
shown_beside format_date base max o =
    Option.map (λ (s : State). beside (screen format_date base max s)) o

shown_beside-cover :
    (format_date : String → String) (base : String) (max : ℕ) (o : Option State)
    → shown_beside format_date base max (Option.map cover o) ≡ shown_beside format_date base max o
shown_beside-cover format_date base max none = refl
shown_beside-cover format_date base max (some s) = ap some (beside-cover format_date base max s)

-- Two lists of events that differ in nothing but the secrets in the answers of POSTs can both happen
-- or neither, and they lead to states that differ in the revealed secret alone: with an empty text for
-- it, where there is one, they are the same. What the dashboard shows is then the same but for the
-- content of the reveal dialog.
pub run-redacted :
    (format_date : String → String) (base : String) (max : ℕ) (keys : List Summary)
    (es es' : List Event)
    → map redact es ≡ map redact es'
    → (is_some (run max (initial keys) es) ≡ is_some (run max (initial keys) es'))
      × (Option.map cover (run max (initial keys) es)
          ≡ Option.map cover (run max (initial keys) es'))
      × (shown_beside format_date base max (run max (initial keys) es)
          ≡ shown_beside format_date base max (run max (initial keys) es'))
unfolding initial
run-redacted format_date base max keys es es' same =
    let one = run max (initial keys) es in
    let two = run max (initial keys) es' in
    let alike : Option.map cover one ≡ Option.map cover two =
      sym (run-cover max (initial keys) es)
      ∙ ap (run max (initial keys)) same
      ∙ run-cover max (initial keys) es' in
    (
      sym (is_some-cover one) ∙ ap (λ (o : Option State). is_some o) alike ∙ is_some-cover two,
      alike,
      sym (shown_beside-cover format_date base max one)
          ∙ ap (shown_beside format_date base max) alike
          ∙ shown_beside-cover format_date base max two,
    )
