-- ===== src/Dashboard/Flight.antt =====
-- The requests that the dashboard awaits. The flags `creating` and `deleting` say whether there is
-- one, so a second press of Enter or of a button sends nothing.
use go_mcp_server.Base.{List, ◌∷◌, ℕ, Bool, true, false, some, ◌≡◌, refl}
use go_mcp_server.Base.{arith, length, ◌≤◌}
use go_mcp_server.Dashboard.Runs.{run-keeps}
use go_mcp_server.Dashboard.{State, Summary, Event, step, run, initial, begin_create}
use go_mcp_server.Dashboard.{begin_delete, end_create, end_delete, create_answered, delete_answered}

-- A flag that says whether something is awaited.
abbrev pub IsFlag {ℓ} : {A : Type ℓ} → List A → Bool → Type 0
IsFlag List.[] flag = flag ≡ false
IsFlag (x ∷ List.[]) flag = flag ≡ true
IsFlag (x ∷ y ∷ xs) flag = false ≡ true

abbrev pub IsFlagged : State → Type 0
IsFlagged s = IsFlag s.posts s.creating × IsFlag s.deletes s.deleting

pub step-IsFlagged :
    (max : ℕ) (s : State) (e : Event) (s' : State)
    → IsFlagged s
    → step max s e ≡ some s'
    → IsFlagged s'
unfolding step begin_create end_create begin_delete end_delete create_answered delete_answered
step-IsFlagged max s e s' h k = ground arith

pub initial-IsFlagged : (keys : List Summary) → IsFlagged (initial keys)
unfolding initial
initial-IsFlagged keys = (refl, refl)

IsFlag-length {ℓ} : {A : Type ℓ} (xs : List A) (flag : Bool) → IsFlag xs flag → length xs ≤ 1
IsFlag-length xs flag h = ground arith

-- Whatever the user does and whatever is answered, the dashboard awaits at most one POST and at
-- most one DELETE, and `creating` and `deleting` say exactly whether it does.
pub run-one_flight :
    (max : ℕ) (keys : List Summary) (es : List Event) (s : State)
    → run max (initial keys) es ≡ some s
    → IsFlagged s × (length s.posts ≤ 1) × (length s.deletes ≤ 1)
run-one_flight max keys es s h =
    let (creates, deletes) =
      run-keeps max IsFlagged (initial keys) es s (step-IsFlagged max) (initial-IsFlagged keys) h in
    ((creates, deletes), IsFlag-length s.posts _ creates, IsFlag-length s.deletes _ deletes)
