-- ===== src/Tests/Buttons.antt =====
-- Tests of the copy buttons, and the theorem on them at a concrete input.
use go_mcp_server.Base.{List, [], ◌∷◌, ℕ, ◌<◌, Bool, true, false, none, ◌≡◌, refl}
use go_mcp_server.Docs.CopyButton.{
  failure, success, copy_value, copy_page, copy_labelled, untouched, copy, fire, at_time,
  after_copies,
}
use go_mcp_server.Docs.CopyButton.Laws.{IsDue, after_copies-recent}

-- Two copies, one second apart.
abbrev two_copies : List (ℕ × Bool)
two_copies = (0, true) ∷ (1000, true) ∷ []

-- Half a second after the second copy, the timer of the first one takes its check mark away.
cut_short : (at_time 1500 (after_copies (copy_value none) untouched two_copies)).copied ≡ false
unfolding after_copies at_time copy fire
cut_short = refl

shown_still : (at_time 1400 (after_copies (copy_value none) untouched two_copies)).copied ≡ true
unfolding after_copies at_time copy fire
shown_still = refl

-- A copy of the page, and one that the clipboard refuses.
said :
    (after_copies copy_page untouched ((0, true) ∷ (9, false) ∷ [])).toasts
    ≡ failure "Couldn't copy the page" ∷ success "Page copied as Markdown" ∷ []
unfolding after_copies at_time copy fire
said = refl

-- The button of a new key says nothing when the clipboard refuses it.
unsaid : after_copies (copy_labelled "API key") untouched ((0, false) ∷ []) ≡ untouched
unfolding after_copies at_time copy fire
unsaid = refl

after_copies-recent_example : (due : ℕ) × IsDue two_copies due × (1400 < due)
after_copies-recent_example = after_copies-recent (copy_value none) two_copies 1400 shown_still
