-- ===== src/Base/Text.antt =====
-- The operations of JavaScript's strings that the program uses, over Unicode scalar values.
use Prim.Native.Nat.{ℕ, ◌-◌}
use Prim.Native.Char.{Char, code}
use Prim.Native.String.{String, [], ◌∷◌, char_at, ◌++◌ as ◌<>◌}
use mathlib.Core.Path.{◌≡◌, refl, sym, ap, ◌∙◌}
use mathlib.Core.Logic.{inl, inr}
use mathlib.Core.Bool.{Bool, true, false, ◌&&◌, ◌||◌}
use mathlib.Core.List.{List}
use native.Mathlib.Omega.{arith}
use text.Mathlib.TextLemmas.{nil-append, cons-append}
use go_mcp_server.Base.Tests.{nat_eq, leb, if◌then◌else◌, Bool-cases}

-- `s.startsWith(t)`
abbrev pub begins_with : String → String → Bool
begins_with s [] = true
begins_with [] (d ∷ t) = false
begins_with (c ∷ s) (d ∷ t) = nat_eq (code c) (code d) && begins_with s t

abbrev pub is_empty : String → Bool
is_empty [] = true
is_empty (_ ∷ _) = false

abbrev pub all_chars : (Char → Bool) → String → Bool
all_chars p [] = true
all_chars p (c ∷ s) = p c && all_chars p s

-- The last character, if there is one, passes the test.
abbrev pub last_is : (Char → Bool) → String → Bool
last_is p [] = false
last_is p (c ∷ []) = p c
last_is p (c ∷ d ∷ s) = last_is p (d ∷ s)

abbrev pub first_is : (Char → Bool) → String → Bool
first_is p [] = false
first_is p (c ∷ s) = p c

abbrev pub drop_start : (Char → Bool) → String → String
drop_start p [] = []
drop_start p (c ∷ s) = if p c then drop_start p s else c ∷ s

-- A character goes if it passes the test and nothing is left behind it.
abbrev pub drop_step : (Char → Bool) → Char → String → String
drop_step p c rest = if p c && is_empty rest then [] else c ∷ rest

abbrev pub drop_end : (Char → Bool) → String → String
drop_end p [] = []
drop_end p (c ∷ s) = drop_step p c (drop_end p s)

-- WhiteSpace and LineTerminator of ECMAScript.
unfoldable pub is_space : ℕ → Bool
is_space n =
    (leb 9 n && leb n 13)
    || nat_eq n 32
    || nat_eq n 160
    || nat_eq n 0x1680
    || (leb 0x2000 n && leb n 0x200a)
    || nat_eq n 0x2028
    || nat_eq n 0x2029
    || nat_eq n 0x202f
    || nat_eq n 0x205f
    || nat_eq n 0x3000
    || nat_eq n 0xfeff

-- `s.trim()`
unfoldable pub trim : String → String
unfolding is_space
trim s = drop_end (λ c. is_space (code c)) (drop_start (λ c. is_space (code c)) s)

-- `lines.join(sep)`
abbrev pub join : String → List String → String
join sep List.[] = []
join sep (List.◌∷◌ x List.[]) = x
join sep (List.◌∷◌ x (List.◌∷◌ y ys)) = x <> (sep <> join sep (List.◌∷◌ y ys))

module _ (p : Char → Bool) where
  -- A text is its first part and a run of characters that pass, and the first part ends in none.
  abbrev pub Dropped : String → String → Type 0
  Dropped s r = (t : String) × (s ≡ r <> t) × (all_chars p t ≡ true) × (last_is p r ≡ false)

  drop_step-Dropped : (c : Char) (s r : String) → Dropped s r → Dropped (c ∷ s) (drop_step p c r)
  drop_step-Dropped c s [] (t, e, a, f) = elim (Bool-cases (p c)) [
    | inl passes ↦
        rw passes
          (c ∷ t, ap (λ u. c ∷ u) (e ∙ nil-append _) ∙ sym (nil-append _), rw passes a, refl)
    | inr other ↦ rw other (t, ap (λ u. c ∷ u) e ∙ sym (cons-append c [] t), a, other)
  ]
  drop_step-Dropped c s (d ∷ r) (t, e, a, f) = elim (Bool-cases (p c)) [
    | inl passes ↦ rw passes (t, ap (λ u. c ∷ u) e ∙ sym (cons-append c (d ∷ r) t), a, f)
    | inr other ↦ rw other (t, ap (λ u. c ∷ u) e ∙ sym (cons-append c (d ∷ r) t), a, f)
  ]

  pub drop_end-Dropped : (s : String) → Dropped s (drop_end p s)
  drop_end-Dropped [] = ([], sym (nil-append []), refl, refl)
  drop_end-Dropped (c ∷ s) = drop_step-Dropped c s (drop_end p s) (drop_end-Dropped s)

  pub drop_end_of_clean : (s : String) → last_is p s ≡ false → drop_end p s ≡ s
  drop_end_of_clean [] h = refl
  drop_end_of_clean (c ∷ []) h = rw h
  drop_end_of_clean (c ∷ d ∷ s) h = rw (drop_end_of_clean (d ∷ s) h) (ground arith)

-- `s.toLowerCase()`, of a text in ASCII
abbrev pub to_lower : String → String
to_lower [] = []
to_lower (c ∷ s) =
    (if leb b'A' (code c) && leb (code c) b'Z'
      then char_at "abcdefghijklmnopqrstuvwxyz" (code c - b'A')
      else c)
    ∷ to_lower s

module _ (p : Char → Bool) where
  first_is-drop_start : (s : String) → first_is p (drop_start p s) ≡ false
  first_is-drop_start [] = refl
  first_is-drop_start (c ∷ s) = elim (Bool-cases (p c)) [
    | inl passes ↦ rw passes (first_is-drop_start s)
    | inr other ↦ rw other other
  ]

  first_is-drop_end : (s : String) → first_is p s ≡ false → first_is p (drop_end p s) ≡ false
  first_is-drop_end [] h = refl
  first_is-drop_end (c ∷ s) h = rw h h

-- A trimmed text neither begins nor ends with white space.
pub trim-clean :
    (s : String)
    → (first_is (λ c. is_space (code c)) (trim s) ≡ false)
      × (last_is (λ c. is_space (code c)) (trim s) ≡ false)
unfolding trim
trim-clean s =
    let p = λ (c : Char). is_space (code c) in
    (
      first_is-drop_end p (drop_start p s) (first_is-drop_start p s),
      (drop_end-Dropped p (drop_start p s)).3,
    )
