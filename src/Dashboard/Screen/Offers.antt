-- ===== src/Dashboard/Screen/Offers.antt =====
-- What a user can do in the tree of the screen.
use go_mcp_server.Base.{
  String, ℕ, List, [], ◌∷◌, Option, none, some, Bool, true, false, not, ◌&&◌, ◌||◌, leb, is_empty,
  ◌==◌, ◌≡◌, refl, arith, Bool-cases, inl, inr,
}
use go_mcp_server.Dashboard.{
  State, Summary, Event, press_create, press_create_empty, type_label, press_enter, press_submit,
  press_cancel, close_create, close_reveal, press_revoke, press_confirm, press_keep, close_confirm,
  at_limit, is_some, utf16_length,
}
use go_mcp_server.Dashboard.Screen.{
  titled, key_card, trees, Tree, Trees, text, node, button, label_field, copy_button, dialog, nil,
  cons, screen, key_cards, key_list, limit_note, spinner, create_dialog, reveal_dialog,
  confirm_dialog, secret,
}

abbrev same_key : Summary → Summary → Bool
same_key j k =
    j.id == k.id && j.label == k.label && j.masked == k.masked && j.created_at == k.created_at

-- Whether a control is the one of an event.
abbrev pub same_event : Event → Event → Bool
same_event press_create press_create = true
same_event press_create_empty press_create_empty = true
same_event press_submit press_submit = true
same_event press_cancel press_cancel = true
same_event close_create close_create = true
same_event close_reveal close_reveal = true
same_event (press_revoke j) (press_revoke k) = same_key j k
same_event press_confirm press_confirm = true
same_event press_keep press_keep = true
same_event close_confirm close_confirm = true
same_event _ _ = false

-- The field takes a text of at most `max_length` code units, and Enter where it `sends`.
abbrev pub in_field : ℕ → Bool → Event → Bool
in_field max_length sends (type_label t) = leb (utf16_length t) max_length
in_field max_length sends press_enter = sends
in_field max_length sends _ = false

-- Whether a user can cause an event in a tree: a control of it is shown, in an open dialog where it
-- stands in one, and is not disabled.
unfoldable mutual
  pub offers : Tree → Event → Bool
  offers (text t) e = false
  offers (node tag children) e = offers_any children e
  offers (button disabled on_click children) e = not disabled && same_event on_click e
  offers (titled title t) e = offers t e
  offers (label_field id placeholder value max_length sends) e = in_field max_length sends e
  offers (copy_button value label) e = false
  offers (dialog open_ on_close children) e =
      open_ && (same_event on_close e || offers_any children e)

  pub offers_any : Trees → Event → Bool
  offers_any nil e = false
  offers_any (cons t ts) e = offers t e || offers_any ts e

limit_note-offers : (max : ℕ) (full : Bool) (e : Event) → offers (limit_note max full) e ≡ false
unfolding offers
limit_note-offers max true e = refl
limit_note-offers max false e = refl

spinner-offers : (busy : Bool) (e : Event) → offers (spinner busy) e ≡ false
unfolding offers
spinner-offers true e = refl
spinner-offers false e = refl

-- The “Revoke” of some key is the control of an event.
abbrev pub revokes : List Summary → Event → Bool
revokes [] e = false
revokes (k ∷ ks) e = same_event (press_revoke k) e || revokes ks e

pub revokes_other :
    (ks : List Summary) (e : Event)
    → ((k : Summary) → same_event (press_revoke k) e ≡ false)
    → revokes ks e ≡ false
revokes_other [] e h = refl
revokes_other (k ∷ ks) e h = rw (h k) (revokes_other ks e h)

key_card-offers :
    (format_date : String → String) (k : Summary) (e : Event)
    → offers (key_card format_date k) e ≡ same_event (press_revoke k) e
unfolding offers
key_card-offers format_date k e = elim (Bool-cases (is_empty k.label)) [
  | inl empty ↦ ground arith
  | inr named ↦ ground arith
]

key_cards-offers :
    (format_date : String → String) (ks : List Summary) (e : Event)
    → offers_any (key_cards format_date ks) e ≡ revokes ks e
unfolding offers
key_cards-offers format_date [] e = refl
key_cards-offers format_date (k ∷ ks) e =
    rw (key_card-offers format_date k e, key_cards-offers format_date ks e) refl

-- What the list of keys offers.
abbrev pub in_list : List Summary → Event → Bool
in_list [] e = same_event press_create_empty e
in_list (k ∷ ks) e = revokes (k ∷ ks) e

key_list-offers :
    (format_date : String → String) (ks : List Summary) (e : Event)
    → offers (key_list format_date ks) e ≡ in_list ks e
unfolding offers
key_list-offers format_date [] e = ground arith
key_list-offers format_date (k ∷ ks) e = key_cards-offers format_date (k ∷ ks) e

secret-offers : (o : Option String) (e : Event) → offers_any (trees (secret o)) e ≡ false
unfolding offers
secret-offers none e = refl
secret-offers (some key) e = ground arith

-- What the three dialogs offer.
abbrev pub in_create : State → Event → Bool
in_create s e =
    s.create_open
    && (same_event close_create e
        || in_field 60 (not s.creating) e
        || (not s.creating && (same_event press_cancel e || same_event press_submit e)))

abbrev pub in_reveal : State → Event → Bool
in_reveal s e = is_some s.revealed && same_event close_reveal e

abbrev pub in_confirm : State → Event → Bool
in_confirm s e =
    is_some s.pending_delete
    && (same_event close_confirm e
        || (not s.deleting && (same_event press_keep e || same_event press_confirm e)))

create_dialog-offers : (s : State) (e : Event) → offers (create_dialog s) e ≡ in_create s e
unfolding offers
create_dialog-offers s e = ground (arith, spinner-offers s.creating e)

reveal_dialog-offers :
    (base : String) (s : State) (e : Event) → offers (reveal_dialog base s) e ≡ in_reveal s e
unfolding offers
reveal_dialog-offers base s e = ground (arith, secret-offers s.revealed e)

confirm_dialog-offers : (s : State) (e : Event) → offers (confirm_dialog s) e ≡ in_confirm s e
unfolding offers
confirm_dialog-offers s e = ground (arith, spinner-offers s.deleting e)

pub screen-offers :
    (format_date : String → String) (base : String) (max : ℕ) (s : State) (e : Event)
    → offers (screen format_date base max s) e
      ≡ (not (at_limit max s) && same_event press_create e)
        || in_list s.keys e
        || in_create s e
        || in_reveal s e
        || in_confirm s e
unfolding screen offers
screen-offers format_date base max s e = ground (
  arith,
  limit_note-offers max (at_limit max s) e,
  key_list-offers format_date s.keys e,
  create_dialog-offers s e,
  reveal_dialog-offers base s e,
  confirm_dialog-offers s e,
)
