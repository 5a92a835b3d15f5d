-- ===== src/Dashboard/Screen/Controls.antt =====
-- Which controls of the screen a user can use, by the requests that are awaited.
use go_mcp_server.Base.{
  String, ℕ, List, [], ◌∷◌, some, Bool, true, false, not, ◌&&◌, ◌||◌, ◌≡◌, refl, arith,
}
use go_mcp_server.Dashboard.{
  State, Summary, Event, press_create, press_create_empty, press_enter, press_submit, press_cancel,
  close_reveal, press_revoke, press_confirm, press_keep, is_some,
}
use go_mcp_server.Dashboard.{run, initial}
use go_mcp_server.Dashboard.Flight.{IsFlag, run-one_flight}
use go_mcp_server.Dashboard.Screen.{screen}
use go_mcp_server.Dashboard.Screen.Offers.{
  same_event, offers, in_list, in_create, in_confirm, revokes_other, screen-offers,
}

in_list_other :
    (ks : List Summary) (e : Event)
    → ((k : Summary) → same_event (press_revoke k) e ≡ false)
    → same_event press_create_empty e ≡ false
    → in_list ks e ≡ false
in_list_other [] e h none_empty = none_empty
in_list_other (k ∷ ks) e h none_empty = revokes_other (k ∷ ks) e h

abbrev pub is_idle {ℓ} : {A : Type ℓ} → List A → Bool
is_idle [] = true
is_idle (x ∷ xs) = false

IsFlag-is_idle {ℓ} :
    {A : Type ℓ} (xs : List A) (flag : Bool) → IsFlag xs flag → not flag ≡ is_idle xs
IsFlag-is_idle [] flag h = rw h refl
IsFlag-is_idle (x ∷ []) flag h = rw h refl
IsFlag-is_idle (x ∷ y ∷ xs) flag h = absurd (cc h)

-- An event of the create dialog or of the confirmation.
abbrev IsOfDialog : Event → Type 0
IsOfDialog e =
    ((k : Summary) → same_event (press_revoke k) e ≡ false)
    × (same_event press_create_empty e ≡ false)
    × (same_event press_create e ≡ false)
    × (same_event close_reveal e ≡ false)

module _ (format_date : String → String) (base : String) (max : ℕ) (s : State) where
  of_dialog-offers :
      (e : Event)
      → IsOfDialog e
      → offers (screen format_date base max s) e ≡ in_create s e || in_confirm s e
  of_dialog-offers e (a, b, c, d) =
      let rest = in_list_other s.keys e a b in
      rw (screen-offers format_date base max s e, rest, c, d) (ground arith)

  submit-offers :
      (e : Event)
      → IsOfDialog e
      → in_create s e ≡ s.create_open && not s.creating
      → in_confirm s e ≡ false
      → IsFlag s.posts s.creating
      → offers (screen format_date base max s) e ≡ s.create_open && is_idle s.posts
  submit-offers e of_dialog this other flag =
      let idle = IsFlag-is_idle s.posts s.creating flag in
      rw (of_dialog-offers e of_dialog, this, other, idle) (ground arith)

  confirm-offers :
      (e : Event)
      → IsOfDialog e
      → in_create s e ≡ false
      → in_confirm s e ≡ is_some s.pending_delete && not s.deleting
      → IsFlag s.deletes s.deleting
      → offers (screen format_date base max s) e ≡ is_some s.pending_delete && is_idle s.deletes
  confirm-offers e of_dialog other this flag =
      let idle = IsFlag-is_idle s.deletes s.deleting flag in
      rw (of_dialog-offers e of_dialog, this, other, idle) refl

-- Whatever the user did and whatever was answered, the controls of the screen follow the requests
-- that are awaited: the buttons of the create dialog and Enter in its field are there for the user
-- exactly while the dialog is open and no POST is awaited, and those of the confirmation exactly
-- while it is open and no DELETE is awaited.
pub run-controls :
    (format_date : String → String) (base : String) (max : ℕ) (keys : List Summary)
    (es : List Event) (s : State)
    → run max (initial keys) es ≡ some s
    → (offers (screen format_date base max s) press_submit ≡ s.create_open && is_idle s.posts)
      × (offers (screen format_date base max s) press_enter ≡ s.create_open && is_idle s.posts)
      × (offers (screen format_date base max s) press_cancel ≡ s.create_open && is_idle s.posts)
      × (offers (screen format_date base max s) press_confirm
          ≡ is_some s.pending_delete && is_idle s.deletes)
      × (offers (screen format_date base max s) press_keep
          ≡ is_some s.pending_delete && is_idle s.deletes)
run-controls format_date base max keys es s h =
    let ((posts, deletes), _, _) = run-one_flight max keys es s h in
    (
      submit-offers format_date base max s press_submit (λ k. refl, refl, refl, refl) (ground arith)
          (ground arith) posts,
      submit-offers format_date base max s press_enter (λ k. refl, refl, refl, refl) (ground arith)
          (ground arith) posts,
      submit-offers format_date base max s press_cancel (λ k. refl, refl, refl, refl) (ground arith)
          (ground arith) posts,
      confirm-offers format_date base max s press_confirm (λ k. refl, refl, refl, refl)
          (ground arith) (ground arith) deletes,
      confirm-offers format_date base max s press_keep (λ k. refl, refl, refl, refl) (ground arith)
          (ground arith) deletes,
    )
