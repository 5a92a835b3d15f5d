-- ===== src/Docs/CopyButton.antt =====
-- The copy buttons: frontend/src/components/docs/copy-button.tsx, copy-page-button.tsx, the two of
-- skill-download.tsx and the one of app/doc/keys/_components/api-keys-manager.tsx. Times are in
-- milliseconds; a copy ends when the clipboard answers, and starts a timer of its own.
pub mod Laws
use go_mcp_server.Base.{
  String, List, [], ◌∷◌, ◌++◌, ◌<>◌, ℕ, ◌+◌, Bool, true, false, Option, none, some, leb,
}
use go_mcp_server.Base.{if◌then◌else◌, is_empty}

pub data Toast : Type 0 where
  success failure : (text : String) → Toast

pub record State : Type 0 where
  pub copied : Bool
  -- when the timers that run are due, the oldest first, and the toasts shown, the last one first
  pub timers : List ℕ
  pub toasts : List Toast

abbrev pub untouched : State
untouched = record { copied = false; timers = []; toasts = [] }

-- What a button says when the clipboard took the text, and when it did not.
pub record Texts : Type 0 where
  pub on_copied : Option String
  pub on_failed : Option String

-- `if (onCopied) toast.success(onCopied)`
abbrev pub announce : Option String → List Toast → List Toast
announce none toasts = toasts
announce (some text) toasts = if is_empty text then toasts else success text ∷ toasts

-- `toast.error(…)`, where the handler has a `catch`
abbrev pub complain : Option String → List Toast → List Toast
complain none toasts = toasts
complain (some text) toasts = failure text ∷ toasts

-- The handler of a copy button, from the answer of the clipboard on.
unfoldable pub copy : Texts → ℕ → Bool → State → State
copy texts now true s = record {
  copied = true;
  timers = s.timers ++ (now + 1500) ∷ [];
  toasts = announce texts.on_copied s.toasts;
}
copy texts now false s = record s { toasts = complain texts.on_failed s.toasts }

-- `copy` of copy-button.tsx, by its `onCopied`.
abbrev pub copy_value : Option String → Texts
copy_value on_copied = record {
  on_copied = on_copied;
  on_failed = some "Couldn't copy to clipboard";
}

-- `copy` of copy-page-button.tsx.
abbrev pub copy_page : Texts
copy_page = record {
  on_copied = some "Page copied as Markdown";
  on_failed = some "Couldn't copy the page";
}

-- `copyCmd` and `copy` of skill-download.tsx.
abbrev pub copy_cmd : Texts
copy_cmd = record {
  on_copied = some "Install command copied";
  on_failed = some "Couldn't copy to clipboard";
}

abbrev pub copy_skill : Texts
copy_skill = record {
  on_copied = some "SKILL.md copied";
  on_failed = some "Couldn't copy to clipboard";
}

-- `onClick` of the button of api-keys-manager.tsx, by its label: it catches nothing, and shows no
-- toast when the clipboard refuses.
abbrev pub copy_labelled : String → Texts
copy_labelled label = record {
  on_copied = some (label <> " copied to clipboard");
  on_failed = none;
}

-- The timers that are due: each sets the state back.
unfoldable pub fire : ℕ → Bool → List ℕ → Bool × List ℕ
fire now copied [] = (copied, [])
fire now copied (due ∷ timers) =
    if leb due now then fire now false timers else (copied, due ∷ timers)

unfoldable pub at_time : ℕ → State → State
unfolding fire
at_time now s = record s {
  copied = (fire now s.copied s.timers).0;
  timers = (fire now s.copied s.timers).1;
}

-- The button after some copies: the time of each, and whether the clipboard took it.
unfoldable pub after_copies : Texts → State → List (ℕ × Bool) → State
unfolding copy at_time
after_copies texts s [] = s
after_copies texts s ((now, ok) ∷ copies) =
    after_copies texts (copy texts now ok (at_time now s)) copies
