-- ===== src/Tests/Dashboard.antt =====
-- Tests of the dashboard, and its theorems at concrete inputs.
use go_mcp_server.Base.{◌⊎◌, List, [], ◌∷◌, ◌++◌, ◌≤◌, none, some, true, false, ◌≡◌, refl}
use go_mcp_server.Json.{quote, quote_rest, quote_char}
use go_mcp_server.Base.{trim, is_space, All, arith, distinct, length, keep}
use go_mcp_server.Dashboard.{
  Summary, Created, Event, State, post_ends, response, object, run, step, initial,
}
use go_mcp_server.Dashboard.{
  press_create, type_label, press_enter, close_reveal, summary_of, at_limit,
}
use go_mcp_server.Dashboard.{begin_create, end_create, create_answered, end_delete, delete_answered}
use go_mcp_server.Dashboard.{delete_ends, success, other_than}
use go_mcp_server.Dashboard.Flight.{IsFlagged, run-one_flight}
use go_mcp_server.Dashboard.Cap.{run-within_cap}
use go_mcp_server.Dashboard.Ids.{ids, step-IsListed, run-distinct-ids}
use go_mcp_server.Dashboard.Secret.{shown, run-revealed, run-closed}
use go_mcp_server.Dashboard.Labels.{IsBody, run-labels}

abbrev laptop : Summary
laptop = record { id = "k1"; label = "Laptop"; masked = "mcp_••6715"; created_at = "2026-01-01" }

abbrev new_key : Created
new_key = record {
  id = "k2";
  label = "CI";
  masked = "mcp_••0001";
  created_at = "2026-01-02";
  key = "mcp_secret";
}

abbrev made : Event
made = post_ends (response true (object none (some new_key)))

-- A key is made while Enter is pressed twice, and the dialog that shows its secret is closed.
abbrev making : List Event
making = press_create ∷ type_label " CI " ∷ press_enter ∷ press_enter ∷ made ∷ []

abbrev start : State
start = initial (laptop ∷ [])

abbrev after_making : State
after_making = record {
  keys = summary_of new_key ∷ laptop ∷ [];
  create_open = false;
  label = "";
  creating = false;
  revealed = some "mcp_secret";
  pending_delete = none;
  deleting = false;
  posts = [];
  deletes = [];
  toasts = [];
}

making-run : run 5 start making ≡ some after_making
unfolding run step initial begin_create end_create create_answered
making-run = refl

making-run_at_cap : run 2 start making ≡ some after_making
unfolding run step initial begin_create end_create create_answered
making-run_at_cap = refl

run-one_flight_example :
    IsFlagged after_making × (length after_making.posts ≤ 1) × (length after_making.deletes ≤ 1)
run-one_flight_example = run-one_flight 5 (laptop ∷ []) making after_making making-run

run-within_cap_example :
    (length after_making.keys ≤ 2)
    × ((at_limit 2 after_making ≡ false)
        ⊎ ((after_making.create_open ≡ false) × (after_making.posts ≡ [])))
run-within_cap_example =
    run-within_cap 2 (laptop ∷ []) making after_making (omega arith) (omega arith) making-run_at_cap

-- A key is made, and a key is revoked.
abbrev desk : Summary
desk = record { id = "k0"; label = "Desk"; masked = "mcp_••0000"; created_at = "2025-12-31" }

abbrev submitted : State
submitted = record start { create_open = true; creating = true; posts = "{\"label\":\"\"}" ∷ [] }

abbrev confirmed : State
confirmed = record (initial (laptop ∷ desk ∷ [])) {
  pending_delete = some desk;
  deleting = true;
  deletes = laptop ∷ [];
}

abbrev gone : Event
gone = delete_ends (response true (object none none))

abbrev after_gone : State
after_gone = record (initial (desk ∷ [])) { toasts = success "API key revoked" ∷ [] }

step-IsListed_example :
    (after_making.keys ≡ summary_of new_key ∷ submitted.keys)
    × ((after_gone.keys ≡ keep (other_than "k1") confirmed.keys)
        × (after_gone.pending_delete ≡ none))
unfolding initial step end_create create_answered end_delete delete_answered
step-IsListed_example = (
  step-IsListed 5 submitted made after_making refl,
  step-IsListed 5 confirmed gone after_gone refl,
)

run-distinct-ids_example : distinct (ids after_making.keys) ≡ true
run-distinct-ids_example =
    run-distinct-ids 5 (laptop ∷ []) making after_making (refl, refl, refl) making-run

run-revealed_example : after_making.revealed ≡ shown start.revealed making
run-revealed_example = run-revealed 5 start making after_making making-run

abbrev closed : State
closed = record after_making { revealed = none }

closing-run : run 5 after_making ([] ++ close_reveal ∷ []) ≡ some closed
unfolding run step
closing-run = refl

run-closed_example : closed.revealed ≡ none
run-closed_example = run-closed 5 after_making [] [] closed refl closing-run

abbrev awaiting : State
awaiting = record after_making {
  keys = laptop ∷ [];
  create_open = true;
  label = " CI ";
  creating = true;
  revealed = none;
  posts = "{\"label\":\"CI\"}" ∷ [];
}

abbrev pressing : List Event
pressing = press_create ∷ type_label " CI " ∷ press_enter ∷ press_enter ∷ []

pressing-run : run 5 start pressing ≡ some awaiting
unfolding run step initial begin_create trim is_space quote quote_rest quote_char
pressing-run = refl

run-labels_example : All IsBody awaiting.posts
run-labels_example = run-labels 5 (laptop ∷ []) pressing awaiting pressing-run
