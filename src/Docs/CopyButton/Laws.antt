-- ===== src/Docs/CopyButton/Laws.antt =====
-- The check mark of a copy button goes away, and it is shown while it should be.
use go_mcp_server.Base.{List, [], ◌∷◌, ◌++◌, ℕ, ◌+◌, ◌<◌, Bool, true, false, leb}
use go_mcp_server.Base.{arith, ◌≡◌, refl, All, All-append, Bool-cases, inl, inr, ◌⊎◌}
use go_mcp_server.Docs.CopyButton.{Texts, State, untouched, copy, fire, at_time, after_copies}

-- One of the copies succeeded, and at `due` its 1500 milliseconds are over.
abbrev pub IsDue : List (ℕ × Bool) → ℕ → Type 0
IsDue [] due = false ≡ true
IsDue ((now, ok) ∷ copies) due = ((ok ≡ true) × (due ≡ now + 1500)) ⊎ IsDue copies due

-- While the check mark is shown, a timer runs, and each timer is that of a copy.
abbrev IsTimed : (ℕ → Type 0) → Bool → List ℕ → Type 0
IsTimed P copied [] = copied ≡ false
IsTimed P copied (due ∷ timers) = P due × All P timers

All-IsTimed : (P : ℕ → Type 0) (timers : List ℕ) → All P timers → IsTimed P false timers
All-IsTimed P [] h = refl
All-IsTimed P (due ∷ timers) h = h

IsTimed-All : (P : ℕ → Type 0) (b : Bool) (timers : List ℕ) → IsTimed P b timers → All P timers
IsTimed-All P b [] h = tt
IsTimed-All P b (due ∷ timers) h = h

IsTimed-append :
    (P : ℕ → Type 0) (timers : List ℕ) (due : ℕ)
    → All P timers
    → P due
    → IsTimed P true (timers ++ due ∷ [])
IsTimed-append P [] due h p = (p, tt)
IsTimed-append P (first ∷ timers) due (q, h) p = (q, All-append P timers (due ∷ []) h (p, tt))

fire-IsTimed :
    (P : ℕ → Type 0) (now : ℕ) (copied : Bool) (timers : List ℕ)
    → IsTimed P copied timers
    → IsTimed P (fire now copied timers).0 (fire now copied timers).1
unfolding fire
fire-IsTimed P now copied [] h = h
fire-IsTimed P now copied (due ∷ timers) (p, h) = elim (Bool-cases (leb due now)) [
  | inl over ↦ rw over (fire-IsTimed P now false timers (All-IsTimed P timers h))
  | inr early ↦ rw early (p, h)
]

-- A check mark that is still shown has a timer that is not due.
fire-late :
    (P : ℕ → Type 0) (now : ℕ) (copied : Bool) (timers : List ℕ)
    → IsTimed P copied timers
    → (fire now copied timers).0 ≡ true
    → (due : ℕ) × P due × (now < due)
unfolding fire
fire-late P now copied [] h shown = cc
fire-late P now copied (due ∷ timers) (p, h) shown = elim (Bool-cases (leb due now)) [
  | inl over ↦ fire-late P now false timers (All-IsTimed P timers h) (rw over at shown)
  | inr early ↦ (due, p, ground arith)
]

-- The timers that a copy may start are those that the predicate allows.
abbrev Allows : (ℕ → Type 0) → ℕ × Bool → Type 0
Allows P (now, ok) = ok ≡ true → P (now + 1500)

copy-IsTimed :
    (P : ℕ → Type 0) (texts : Texts) (now : ℕ) (ok : Bool) (s : State)
    → Allows P (now, ok)
    → IsTimed P s.copied s.timers
    → IsTimed P (copy texts now ok s).copied (copy texts now ok s).timers
unfolding copy
copy-IsTimed P texts now true s p h =
    IsTimed-append P s.timers (now + 1500) (IsTimed-All P s.copied s.timers h) (p refl)
copy-IsTimed P texts now false s p h = h

after_copies-IsTimed :
    (P : ℕ → Type 0) (texts : Texts) (s : State) (copies : List (ℕ × Bool))
    → All (Allows P) copies
    → IsTimed P s.copied s.timers
    → IsTimed P (after_copies texts s copies).copied (after_copies texts s copies).timers
unfolding after_copies at_time
after_copies-IsTimed P texts s [] a h = h
after_copies-IsTimed P texts s ((now, ok) ∷ copies) (p, a) h =
    after_copies-IsTimed P texts (copy texts now ok (at_time now s)) copies a
      (copy-IsTimed P texts now ok (at_time now s) p (fire-IsTimed P now s.copied s.timers h))

Allows-later :
    (c : ℕ × Bool) (copies more : List (ℕ × Bool))
    → All (Allows (IsDue copies)) more
    → All (Allows (IsDue (c ∷ copies))) more
Allows-later c copies [] a = tt
Allows-later c copies ((now, ok) ∷ more) (p, a) =
    (λ (h : ok ≡ true). inr (p h), Allows-later c copies more a)

IsDue-Allows : (copies : List (ℕ × Bool)) → All (Allows (IsDue copies)) copies
IsDue-Allows [] = tt
IsDue-Allows ((now, ok) ∷ copies) =
    (λ (h : ok ≡ true). inl (h, refl), Allows-later (now, ok) copies copies (IsDue-Allows copies))

-- Whatever a button says and whatever copies were made, the check mark is shown only while the 1500 milliseconds of some copy
-- that succeeded are not over, so it always goes away.
pub after_copies-recent :
    (texts : Texts) (copies : List (ℕ × Bool)) (now : ℕ)
    → (at_time now (after_copies texts untouched copies)).copied ≡ true
    → (due : ℕ) × IsDue copies due × (now < due)
unfolding at_time
after_copies-recent texts copies now shown =
    let s = after_copies texts untouched copies in
    fire-late (IsDue copies) now s.copied s.timers
      (after_copies-IsTimed (IsDue copies) texts untouched copies (IsDue-Allows copies) refl) shown
