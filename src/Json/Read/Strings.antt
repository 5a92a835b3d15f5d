-- ===== src/Json/Read/Strings.antt =====
-- Reading what `quote` of Json.antt writes.
use Prim.Native.Nat.{Ordering, compare}
use Prim.Native.Char.{char}
use Prim.Native.String.{[], ◌∷◌}
use text.Mathlib.TextLemmas.{nil-append, cons-append, append-nil, append_assoc}
use text.Mathlib.TextEquality.{Char-path}
use native.Mathlib.Decide.{dec_lt}
use go_mcp_server.Base.{
  String, ◌<>◌, Char, code, ℕ, ◌+◌, ◌*◌, ◌/◌, ◌%◌, ◌<◌, suc, zero, false, nat_eq, ltb, some, ◌≡◌,
  refl, subst, ap, ◌∙◌, arith, inl, inr, Option-cases,
}
use go_mcp_server.Json.{quote_char, quote_rest, lower_hex}
use go_mcp_server.Json.Escapes.{Scalar, scalar, of_code, hex_value}
use go_mcp_server.Json.Read.{Reader, in_text, unicode, Role, close_text, step, read}

-- A text is read by its parts.
pub read-append : (r r' : Reader) (a b : String) → read r a ≡ some r' → read r (a <> b) ≡ read r' b
unfolding read
read-append r r' [] b h = let e : r ≡ r' = cc in rw (nil-append b, e) refl
read-append r r' (c ∷ a) b h = elim (Option-cases (step r c)) [
  | inl refused ↦ absurd (ground arith)
  | inr (r'', e) ↦
      let rest : read r'' a ≡ some r' = ground arith in
      rw (cons-append c a b) (ground (arith, read-append r'' r' a b rest))
]

pub read-step :
    (r r' : Reader) (c : Char) (s : String) → step r c ≡ some r' → read r (c ∷ s) ≡ read r' s
unfolding read
read-step r r' c s e = ground arith

-- A property of the numbers below another, as a product.
abbrev pub Each : ℕ → (ℕ → Type 0) → Type 0
Each zero P = Unit
Each (suc n) P = P n × Each n P

pub Each-at : (n : ℕ) (P : ℕ → Type 0) (d : ℕ) → Each n P → d < n → P d
Each-at zero P d e h = absurd (omega (arith, h))
Each-at (suc n) P d (last, rest) h = elim (dec_lt d n) [
  | yes less ↦ Each-at n P d rest less
  | no more ↦ let here : n ≡ d = omega (arith, h, more) in subst P here last
]

hex_value-lower_hex : (d : ℕ) → d < 16 → hex_value (lower_hex d) ≡ some d
hex_value-lower_hex d h =
    Each-at 16 (λ n. hex_value (lower_hex n) ≡ some n) d
      (
        refl,
        (
          refl,
          (
            refl,
            (
              refl,
              (
                refl,
                (
                  refl,
                  (
                    refl,
                    (refl, (refl, (refl, (refl, (refl, (refl, (refl, (refl, (refl, tt))))))))),
                  ),
                ),
              ),
            ),
          ),
        ),
      )
      h

scalar_lem : (o p q : Ordering) (s : Scalar o p q) → scalar o p q ≡ some s
scalar_lem Ordering.lt p q s = refl
scalar_lem Ordering.eq Ordering.lt Ordering.lt s = refl
scalar_lem Ordering.gt Ordering.lt Ordering.lt s = refl
scalar_lem Ordering.eq Ordering.lt Ordering.eq s = absurd s
scalar_lem Ordering.eq Ordering.lt Ordering.gt s = absurd s
scalar_lem Ordering.eq Ordering.eq q s = absurd s
scalar_lem Ordering.eq Ordering.gt q s = absurd s
scalar_lem Ordering.gt Ordering.lt Ordering.eq s = absurd s
scalar_lem Ordering.gt Ordering.lt Ordering.gt s = absurd s
scalar_lem Ordering.gt Ordering.eq q s = absurd s
scalar_lem Ordering.gt Ordering.gt q s = absurd s

of_code-code : (c : Char) → of_code (code c) ≡ some c
of_code-code (char n s) =
    rw (of_code, scalar_lem (compare n 55296) (compare 57343 n) (compare n 1114112) s) refl

module _ (c : Char) (rest s : String) (role : Role) where
  abbrev Adds : String → Type 0
  Adds s' = read (in_text s role) s' ≡ read (in_text (s <> (c ∷ [])) role) rest

  -- a backslash and a letter
  short_lem :
      (d : Char) (escape : String)
      → read (in_text s role) escape ≡ some (in_text (s <> (d ∷ [])) role)
      → code c ≡ code d
      → Adds (escape <> rest)
  short_lem d escape h e =
      let same = Char-path c d e in
      rw same (read-append (in_text s role) (in_text (s <> (d ∷ [])) role) escape rest h)

  digits_lem :
      (x y : Char) (a b : ℕ)
      → hex_value x ≡ some a
      → hex_value y ≡ some b
      → of_code (a * 16 + b) ≡ some c
      → read (unicode 1 0 s role) (x ∷ y ∷ rest) ≡ read (in_text (s <> (c ∷ [])) role) rest
  unfolding read step
  digits_lem x y a b high low back = ground arith

  unicode_lem :
      code c < 32 → Adds ("\\u00" <> (lower_hex (code c / 16) ∷ lower_hex (code c % 16) ∷ rest))
  unfolding read step
  unicode_lem h =
      let high = hex_value-lower_hex (code c / 16) (omega (arith, h)) in
      let low = hex_value-lower_hex (code c % 16) (omega arith) in
      let back : code c / 16 * 16 + code c % 16 ≡ code c = omega arith in
      let x = lower_hex (code c / 16) in
      let y = lower_hex (code c % 16) in
      read-append (in_text s role) (unicode 1 0 s role) "\\u00" (x ∷ y ∷ rest) refl
      ∙ digits_lem x y (code c / 16) (code c % 16) high low (ap of_code back ∙ of_code-code c)

  plain_lem :
      nat_eq (code c) 34 ≡ false
      → nat_eq (code c) 92 ≡ false
      → ltb (code c) 32 ≡ false
      → Adds (c ∷ rest)
  unfolding read step
  plain_lem = ground arith

  quote_char_lem : Adds (quote_char c rest)
  unfolding quote_char read step
  quote_char_lem = ground (
    arith,
    short_lem (char 34 tt) "\\\"" refl,
    short_lem (char 92 tt) "\\\\" refl,
    short_lem (char 8 tt) "\\b" refl,
    short_lem (char 9 tt) "\\t" refl,
    short_lem (char 10 tt) "\\n" refl,
    short_lem (char 12 tt) "\\f" refl,
    short_lem (char 13 tt) "\\r" refl,
    unicode_lem,
    plain_lem,
  )

-- A quoted character stands before what follows.
quote_char-append : (c : Char) (a b : String) → quote_char c a <> b ≡ quote_char c (a <> b)
unfolding quote_char
quote_char-append c a b =
    let h = append_assoc "\\u00" (lower_hex (code c / 16) ∷ lower_hex (code c % 16) ∷ a) b in
    let x = cons-append (lower_hex (code c / 16)) (lower_hex (code c % 16) ∷ a) b in
    let y = cons-append (lower_hex (code c % 16)) a b in
    ground (
      arith,
      append_assoc "\\\"" a b,
      append_assoc "\\\\" a b,
      append_assoc "\\b" a b,
      append_assoc "\\t" a b,
      append_assoc "\\n" a b,
      append_assoc "\\f" a b,
      append_assoc "\\r" a b,
      cons-append c a b,
      h,
      x,
      y,
    )

quote_rest_lem :
    (t rest s : String) (role : Role)
    → read (in_text s role) (quote_rest t <> rest) ≡ read (close_text (s <> t) role) rest
unfolding quote_rest step
quote_rest_lem [] rest s role =
    rw (append-nil s)
      (read-append (in_text s role) (close_text s role) "\"" rest (unfold read in refl))
quote_rest_lem (c ∷ t) rest s role =
    rw
      (
        quote_char-append c (quote_rest t) rest,
        quote_char_lem c (quote_rest t <> rest) s role,
        quote_rest_lem t rest (s <> (c ∷ [])) role,
        append_assoc s (c ∷ []) t,
        cons-append c [] t,
        nil-append t,
      )
      refl

pub quote_lem :
    (t rest : String) (role : Role)
    → read (in_text [] role) (quote_rest t <> rest) ≡ read (close_text t role) rest
quote_lem t rest role =
    quote_rest_lem t rest [] role ∙ ap (λ u. read (close_text u role) rest) (nil-append t)
