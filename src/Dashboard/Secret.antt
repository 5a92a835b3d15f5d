-- ===== src/Dashboard/Secret.antt =====
-- The full secret of a key: the dashboard shows it once.
use go_mcp_server.Base.{String, List, [], ◌∷◌, ◌++◌, ℕ, Option, none, some, ◌≡◌, refl}
use go_mcp_server.Base.{arith, some-injective, ap, sym, ◌∙◌}
use go_mcp_server.Dashboard.{State, Event, step, run}
use go_mcp_server.Dashboard.{begin_create, close_reveal}
use go_mcp_server.Dashboard.{begin_delete, end_create, end_delete, create_answered, delete_answered}
use go_mcp_server.Dashboard.Runs.{run-step}
use go_mcp_server.Dashboard.Ids.{created}

-- The secret that an event brings.
abbrev pub secret : Event → Option String
secret e = elim (created e) [ none ↦ none | some c ↦ some c.key ]

abbrev pub secrets : List Event → List String
secrets [] = []
secrets (e ∷ es) = elim (secret e) [ none ↦ secrets es | some k ↦ k ∷ secrets es ]

abbrev pub next_shown : Option String → Event → Option String
next_shown now close_reveal = none
next_shown now e = elim (secret e) [ none ↦ now | some k ↦ some k ]

-- What the reveal dialog shows after the events: the last secret, until the dialog is closed.
abbrev pub shown : Option String → List Event → Option String
shown now [] = now
shown now (e ∷ es) = shown (next_shown now e) es

step-revealed :
    (max : ℕ) (s : State) (e : Event) (s' : State)
    → step max s e ≡ some s'
    → next_shown s.revealed e ≡ s'.revealed
unfolding step begin_create end_create begin_delete end_delete create_answered delete_answered
step-revealed max s e s' k = ground arith

-- The reveal dialog shows what `shown` says of the events alone: the secret of the last key that
-- was made, until the dialog is closed. No other event and nothing else of the state has a part in
-- it.
pub run-revealed :
    (max : ℕ) (s : State) (es : List Event) (s' : State)
    → run max s es ≡ some s'
    → s'.revealed ≡ shown s.revealed es
unfolding run
run-revealed max s [] s' r = ap (λ (t : State). t.revealed) (sym (some-injective s s' r))
run-revealed max s (e ∷ es) s' r =
    let (t, stepped, rest) = run-step max s e es s' r in
    run-revealed max t es s' rest ∙ ap (λ now. shown now es) (sym (step-revealed max s e t stepped))

shown-quiet : (es : List Event) → secrets es ≡ [] → shown none es ≡ none
shown-quiet [] h = refl
shown-quiet (e ∷ es) h = ground (arith, shown-quiet es)

shown-closed :
    (before after : List Event) (now : Option String)
    → secrets after ≡ []
    → shown now (before ++ close_reveal ∷ after) ≡ none
shown-closed [] after now h = shown-quiet after h
shown-closed (e ∷ before) after now h = shown-closed before after (next_shown now e) h

-- Once the reveal dialog was closed, no secret is shown until another key is made.
pub run-closed :
    (max : ℕ) (s : State) (before after : List Event) (s' : State)
    → secrets after ≡ []
    → run max s (before ++ close_reveal ∷ after) ≡ some s'
    → s'.revealed ≡ none
run-closed max s before after s' h r =
    run-revealed max s (before ++ close_reveal ∷ after) s' r
    ∙ shown-closed before after s.revealed h
