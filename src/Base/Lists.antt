-- ===== src/Base/Lists.antt =====
-- Lists: native length, Boolean quantifiers, predicates by recursion and a filter that runs.
use Prim.Native.Nat.{ℕ, suc, ◌+◌}
use Prim.Native.String.{String}
use mathlib.Core.Path.{◌≡◌, refl, subst, subst₂}
use mathlib.Core.Logic.{inl, inr}
use mathlib.Core.Bool.{Bool, true, false, ◌&&◌, ◌||◌, not}
use mathlib.Core.Option.{Option, none, some, some-injective}
use mathlib.Core.List.{List, [], ◌∷◌, ◌++◌}
use native.Mathlib.Omega.{arith}
use text.Mathlib.Text.{◌==◌}
use text.Mathlib.TextEquality.{eq_iff}
use go_mcp_server.Base.Tests.{if◌then◌else◌, Bool-cases}

module _ {ℓ} {A : Type ℓ} where
  abbrev pub length : List A → ℕ
  length [] = 0
  length (x ∷ xs) = suc (length xs)

  pub length-append : (xs ys : List A) → length (xs ++ ys) ≡ length xs + length ys
  length-append [] ys = omega arith
  length-append (x ∷ xs) ys = omega (arith, length-append xs ys)

  abbrev pub all : (A → Bool) → List A → Bool
  all p [] = true
  all p (x ∷ xs) = p x && all p xs

  -- `xs.filter(p)`
  abbrev pub keep : (A → Bool) → List A → List A
  keep p [] = []
  keep p (x ∷ xs) = if p x then x ∷ keep p xs else keep p xs

  pub keep-append : (p : A → Bool) (xs ys : List A) → keep p (xs ++ ys) ≡ keep p xs ++ keep p ys
  keep-append p [] ys = refl
  keep-append p (x ∷ xs) ys = ground (arith, keep-append p xs ys)

module _ {ℓ κ} {A : Type ℓ} (P : A → Type κ) where
  abbrev pub All : List A → Type κ
  All [] = Unit
  All (x ∷ xs) = P x × All xs

  pub All-append : (xs ys : List A) → All xs → All ys → All (xs ++ ys)
  All-append [] ys h k = k
  All-append (x ∷ xs) ys (p, h) k = (p, All-append xs ys h k)

abbrev pub contains : List String → String → Bool
contains [] k = false
contains (x ∷ xs) k = x == k || contains xs k

-- No text is listed twice.
abbrev pub distinct : List String → Bool
distinct [] = true
distinct (x ∷ xs) = not (contains xs x) && distinct xs

-- The own property of an object literal.
abbrev pub lookup {ℓ} : {V : Type ℓ} → String → List (String × V) → Option V
lookup k [] = none
lookup k ((j, v) ∷ m) = if j == k then some v else lookup k m

pub lookup-All {ℓ κ} :
    {V : Type ℓ} (P : String → V → Type κ) (k : String) (m : List (String × V)) {v : V}
    → All (λ (j, w). P j w) m
    → lookup k m ≡ some v
    → P k v
lookup-All P k [] h e = cc
lookup-All P k ((j, w) ∷ m) (p, h) e = elim (Bool-cases (j == k)) [
  | inl same ↦
      let found : some w ≡ some _ = rw same at e in
      subst₂ P ((eq_iff j k).0 same) (some-injective w _ found) p
  | inr other ↦ lookup-All P k m h (rw other at e)
]

pub all_mono {ℓ} :
    {A : Type ℓ} (p q : A → Bool) (xs : List A)
    → ((x : A) → p x ≡ true → q x ≡ true)
    → all p xs ≡ true
    → all q xs ≡ true
all_mono p q [] h a = refl
all_mono p q (x ∷ xs) h a = ground (arith, h x, all_mono p q xs h)

-- A check of a whole list, at a text that it contains.
pub all-contains :
    (p : String → Bool) (xs : List String) (k : String)
    → all p xs ≡ true
    → contains xs k ≡ true
    → p k ≡ true
all-contains p [] k a c = cc
all-contains p (x ∷ xs) k a c = ground (arith, eq_iff x k, all-contains p xs k)

pub lookup-all {ℓ} :
    {V : Type ℓ} (p : V → Bool) (k : String) (m : List (String × V)) {v : V}
    → all (λ (_, w). p w) m ≡ true
    → lookup k m ≡ some v
    → p v ≡ true
lookup-all p k [] h e = cc
lookup-all p k ((j, w) ∷ m) h e = elim (Bool-cases (j == k)) [
  | inl same ↦
      let found : some w ≡ some _ = rw same at e in
      subst (λ u. p u ≡ true) (some-injective w _ found) (ground arith)
  | inr other ↦ lookup-all p k m (ground arith) (rw other at e)
]
