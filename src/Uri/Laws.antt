-- ===== src/Uri/Laws.antt =====
-- An encoded component is one path segment, and percent-decoding gives the text's bytes back.
use Prim.Native.String.{[], ◌∷◌}
use Prim.Native.Char.{char}
use mathlib.Core.Option
use go_mcp_server.Base.{String, Char, code, ℕ, zero, suc, ◌+◌, ◌*◌, ◌-◌, ◌/◌, ◌%◌, ◌<◌, Bool, true}
use go_mcp_server.Base.{false, ◌&&◌, ◌||◌, not, List, ◌++◌, Option, none, some, ◌≡◌, refl, ap}
use go_mcp_server.Base.{
  arith, ltb, leb, nat_eq, if◌then◌else◌, all_chars, all, Bool-cases, inl, inr,
}
use go_mcp_server.Uri.{utf8, is_unreserved, hex_digit, escape, encode_uri_component}

-- What a percent-decoder waits for.
pub data Mode : Type 0 where
  plain high : Mode
  low : ℕ → Mode

hex_value : ℕ → Option ℕ
hex_value n =
    if leb b'0' n && leb n b'9'
    then some (n - b'0')
    else if leb b'A' n && leb n b'F'
    then some (n - b'A' + 10)
    else if leb b'a' n && leb n b'f'
    then some (n - b'a' + 10)
    else none

-- Percent-decoding of ASCII text into bytes; `none` is a malformed escape, or a character that is
-- not ASCII.
unfoldable pub decode : Mode → String → Option (List ℕ)
unfolding hex_value
decode plain [] = some List.[]
decode high [] = none
decode (low h) [] = none
decode plain (c ∷ s) = elim (nat_eq (code c) b'%') [
  | true ↦ decode high s
  | false ↦ elim (ltb (code c) 0x80) [
    | true ↦ Option.map (λ bs. List.◌∷◌ (code c) bs) (decode plain s)
    | false ↦ none
  ]
]
decode high (c ∷ s) = elim (hex_value (code c)) [ none ↦ none | some h ↦ decode (low h) s ]
decode (low h) (c ∷ s) = elim (hex_value (code c)) [
  | none ↦ none
  | some l ↦ Option.map (λ bs. List.◌∷◌ (16 * h + l) bs) (decode plain s)
]

-- The UTF-8 bytes of a text.
unfoldable pub bytes : String → List ℕ
bytes [] = List.[]
bytes (c ∷ s) = utf8 (code c) ++ bytes s

-- The numbers under a bound, the greatest first.
abbrev down_from : ℕ → List ℕ
down_from zero = List.[]
down_from (suc k) = List.◌∷◌ k (down_from k)

all-down_from :
    (n bound : ℕ) (p : ℕ → Bool) → n < bound → all p (down_from bound) ≡ true → p n ≡ true
all-down_from n zero p small checked = absurd (omega arith)
all-down_from n (suc k) p small checked = ground (arith, all-down_from n k p)

-- Can stand inside a path segment, before a query.
abbrev pub is_segment_char : Char → Bool
is_segment_char c =
    not (nat_eq (code c) b'/' || nat_eq (code c) b'?' || nat_eq (code c) b'#') && ltb (code c) 0x80

abbrev is_value : Option ℕ → ℕ → Bool
is_value none n = false
is_value (some m) n = nat_eq m n

-- A digit stands for its value, and fits into a path segment.
abbrev is_digit_of : ℕ → Bool
is_digit_of n = is_value (hex_value (code (hex_digit n))) n && is_segment_char (hex_digit n)

hex_digits-checked : all is_digit_of (down_from 16) ≡ true
unfolding hex_value hex_digit
hex_digits-checked = refl

hex_digit-value : (n : ℕ) → n < 16 → hex_value (code (hex_digit n)) ≡ some n
hex_digit-value n h = ground (arith, all-down_from n 16 is_digit_of h hex_digits-checked)

hex_digit-segment : (n : ℕ) → n < 16 → is_segment_char (hex_digit n) ≡ true
hex_digit-segment n h = ground (arith, all-down_from n 16 is_digit_of h hex_digits-checked)

code-bound : (c : Char) → code c < 0x110000
code-bound (char n p) = ground arith

abbrev AllBytes : List ℕ → Type 0
AllBytes List.[] = Unit
AllBytes (List.◌∷◌ b bs) = (b < 256) × AllBytes bs

utf8-AllBytes : (n : ℕ) → n < 0x110000 → AllBytes (utf8 n)
unfolding utf8
utf8-AllBytes n h = ground arith

decode-escape :
    (bs : List ℕ) (rest : String) {out : List ℕ}
    → AllBytes bs
    → decode plain rest ≡ some out
    → decode plain (escape bs rest) ≡ some (bs ++ out)
unfolding decode escape
decode-escape List.[] rest h e = e
decode-escape (List.◌∷◌ b bs) rest {out} (hb, h) e =
    let hi : b / 16 < 16 = omega arith in
    let lo : b % 16 < 16 = omega arith in
    let whole : 16 * (b / 16) + b % 16 ≡ b = omega arith in
    rw (hex_digit-value (b / 16) hi, decode, hex_digit-value (b % 16) lo, decode-escape bs rest h e)
      (ap (λ (x : ℕ). some (List.◌∷◌ x (bs ++ out))) whole)

is_unreserved-plain : (n : ℕ) → is_unreserved n ≡ true → (n < 0x80) × (nat_eq n b'%' ≡ false)
unfolding is_unreserved
is_unreserved-plain n h = ground arith

utf8-of_lt : (n : ℕ) → n < 0x80 → utf8 n ≡ List.◌∷◌ n List.[]
unfolding utf8
utf8-of_lt n h = ground arith

decode-plain_char :
    (c : Char) (s : String) {out : List ℕ}
    → is_unreserved (code c) ≡ true
    → decode plain s ≡ some out
    → decode plain (c ∷ s) ≡ some (utf8 (code c) ++ out)
unfolding decode
decode-plain_char c s u e =
    let (small, other) = is_unreserved-plain (code c) u in
    rw (utf8-of_lt (code c) small) (ground arith)

-- Percent-decoding an encoded text gives the text's UTF-8 bytes.
pub decode-encode_uri_component :
    (s : String) → decode plain (encode_uri_component s) ≡ some (bytes s)
unfolding encode_uri_component bytes
decode-encode_uri_component [] = unfold decode in refl
decode-encode_uri_component (c ∷ s) = elim (Bool-cases (is_unreserved (code c))) [
  | inl kept ↦ rw kept (decode-plain_char c _ kept (decode-encode_uri_component s))
  | inr other ↦ rw other (
      decode-escape (utf8 (code c)) _ (utf8-AllBytes _ (code-bound c))
        (decode-encode_uri_component s))
]

is_unreserved-segment : (c : Char) → is_unreserved (code c) ≡ true → is_segment_char c ≡ true
unfolding is_unreserved
is_unreserved-segment c h = ground arith

escape-segment :
    (bs : List ℕ) (rest : String)
    → AllBytes bs
    → all_chars is_segment_char rest ≡ true
    → all_chars is_segment_char (escape bs rest) ≡ true
unfolding escape
escape-segment List.[] rest h e = e
escape-segment (List.◌∷◌ b bs) rest (hb, h) e = rw (
  hex_digit-segment (b / 16) (omega arith),
  hex_digit-segment (b % 16) (omega arith),
  escape-segment bs rest h e,
)

-- An encoded text stays inside one path segment: it is ASCII with no `/`, no `?` and no `#`.
pub encode_uri_component-segment :
    (s : String) → all_chars is_segment_char (encode_uri_component s) ≡ true
unfolding encode_uri_component
encode_uri_component-segment [] = refl
encode_uri_component-segment (c ∷ s) = elim (Bool-cases (is_unreserved (code c))) [
  | inl kept ↦ rw (kept, is_unreserved-segment c kept) (encode_uri_component-segment s)
  | inr other ↦ rw other (
      escape-segment (utf8 (code c)) _ (utf8-AllBytes _ (code-bound c))
        (encode_uri_component-segment s))
]
