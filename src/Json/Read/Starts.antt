-- ===== src/Json/Read/Starts.antt =====
-- How the texts that `JSON.stringify` writes begin, and what a reader skips.
use Prim.Native.String.{[], ◌∷◌}
use text.Mathlib.TextLemmas.{nil-append, cons-append, append_assoc}
use go_mcp_server.Base.{
  String, ◌<>◌, Char, code, ℕ, zero, suc, ◌/◌, ◌%◌, ◌<◌, Bool, true, false, some, ◌≡◌, refl, ap,
  ◌∙◌, arith, first_is, all_chars, is_empty, not, ◌&&◌, nat_eq,
}
use go_mcp_server.Json.{Json, null, bool, num, str, arr, obj, Items, nil, item, Fields, end, field}
use go_mcp_server.Json.{
  pretty, pretty_items, pretty_fields, quote, quote_rest, decimal, digits, decimal_digit,
}
use go_mcp_server.Json.Escapes.{is_digit, is_white}
use go_mcp_server.Json.Read.{
  Reader, value, in_array, first_item, Around, items_append, fields_append, step, read, result,
  outcome,
}
use go_mcp_server.Json.Read.Strings.{read-append, read-step, Each-at}

-- White space changes nothing for a reader that skips it.
pub outcome-indent :
    (r : Reader) (indent rest : String)
    → ((c : Char) → is_white c ≡ true → step r c ≡ some r)
    → all_chars is_white indent ≡ true
    → outcome r (indent <> rest) ≡ outcome r rest
outcome-indent r [] rest skip h = ap (outcome r) (nil-append rest)
outcome-indent r (c ∷ s) rest skip h =
    let white : is_white c ≡ true = ground arith in
    let more : all_chars is_white s ≡ true = ground arith in
    ap (outcome r) (cons-append c s rest)
    ∙ ap result (read-step r r c (s <> rest) (skip c white))
    ∙ outcome-indent r s rest skip more

-- The first part of a text is read.
pub outcome-append :
    (r r' : Reader) (a b : String) → read r a ≡ some r' → outcome r (a <> b) ≡ outcome r' b
outcome-append r r' a b h = ap result (read-append r r' a b h)

pub items_append_assoc :
    (a b c : Items) → items_append (items_append a b) c ≡ items_append a (items_append b c)
items_append_assoc nil b c = refl
items_append_assoc (item v a) b c = ap (item v) (items_append_assoc a b c)

pub items_append-nil : (a : Items) → items_append a nil ≡ a
items_append-nil nil = refl
items_append-nil (item v a) = ap (item v) (items_append-nil a)

pub fields_append_assoc :
    (a b c : Fields) → fields_append (fields_append a b) c ≡ fields_append a (fields_append b c)
fields_append_assoc end b c = refl
fields_append_assoc (field k v a) b c = ap (field k v) (fields_append_assoc a b c)

pub fields_append-end : (a : Fields) → fields_append a end ≡ a
fields_append-end end = refl
fields_append-end (field k v a) = ap (field k v) (fields_append-end a)

-- Texts by their first character.
pub first_is-append :
    (p : Char → Bool) (a b : String) → is_empty a ≡ false → first_is p (a <> b) ≡ first_is p a
first_is-append p [] b h = absurd (ground arith)
first_is-append p (c ∷ a) b h = rw (cons-append c a b) refl

first_true : (p : Char → Bool) (a b : String) → first_is p a ≡ true → first_is p (a <> b) ≡ true
first_true p [] b h = absurd (ground arith)
first_true p (c ∷ a) b h = rw (cons-append c a b) h

-- What no value begins with, where a first item may stand.
abbrev pub is_start : Char → Bool
is_start c = not (is_white c) && not (nat_eq (code c) b']')

pub first_item-value :
    (around : Around) (s : String)
    → first_is is_start s ≡ true
    → outcome (first_item around) s ≡ outcome (value (in_array nil around)) s
unfolding read step
first_item-value around [] h = absurd (ground arith)
first_item-value around (c ∷ s) h = ground arith

pub all_chars-append :
    (p : Char → Bool) (a b : String)
    → all_chars p a ≡ true
    → all_chars p b ≡ true
    → all_chars p (a <> b) ≡ true
all_chars-append p [] b h k = rw (nil-append b) k
all_chars-append p (c ∷ a) b h k = rw (cons-append c a b) (ground (arith, all_chars-append p a b))

is_start-decimal_digit : (d : ℕ) → d < 10 → is_start (decimal_digit d) ≡ true
is_start-decimal_digit d h =
    Each-at 10 (λ n. is_start (decimal_digit n) ≡ true) d
      (refl, (refl, (refl, (refl, (refl, (refl, (refl, (refl, (refl, (refl, tt)))))))))) h

first_is-digits :
    (f n : ℕ) (s : String) → first_is is_start s ≡ true → first_is is_start (digits f n s) ≡ true
unfolding digits
first_is-digits zero n s h = h
first_is-digits (suc f) n s h =
    let d = decimal_digit (n % 10) in
    let first = is_start-decimal_digit (n % 10) (omega arith) in
    ground (arith, first_is-digits f (n / 10) (d ∷ s) first)

first_is-decimal : (n : ℕ) → first_is is_start (decimal n) ≡ true
unfolding decimal digits
first_is-decimal n =
    let first = is_start-decimal_digit (n % 10) (omega arith) in
    ground (arith, first_is-digits n (n / 10) (decimal_digit (n % 10) ∷ []) first)

pub first_is-pretty : (indent : String) (j : Json) → first_is is_start (pretty indent j) ≡ true
unfolding pretty quote
first_is-pretty indent null = refl
first_is-pretty indent (bool true) = refl
first_is-pretty indent (bool false) = refl
first_is-pretty indent (num n) = first_is-decimal n
first_is-pretty indent (str s) = first_is-append is_start "\"" (quote_rest s) refl
first_is-pretty indent (arr nil) = refl
first_is-pretty indent (arr (item v vs)) =
    first_is-append is_start "[\n  "
      (indent <> (pretty (indent <> "  ") v <> (pretty_items indent vs <> "]"))) refl
first_is-pretty indent (obj end) = refl
first_is-pretty indent (obj (field k v fs)) =
    first_is-append is_start "{\n  "
      (indent
        <> (quote k <> (": " <> (pretty (indent <> "  ") v <> (pretty_fields indent fs <> "}")))))
      refl

pub pretty_items-Stops :
    (indent : String) (vs : Items) (rest : String)
    → first_is is_digit (pretty_items indent vs <> rest) ≡ false
unfolding pretty
pretty_items-Stops indent nil rest =
    ap (first_is is_digit) (append_assoc "\n" indent rest)
    ∙ first_is-append is_digit "\n" (indent <> rest) refl
pretty_items-Stops indent (item v vs) rest =
    let more = indent <> (pretty (indent <> "  ") v <> pretty_items indent vs) in
    ap (first_is is_digit) (append_assoc ",\n  " more rest)
    ∙ first_is-append is_digit ",\n  " (more <> rest) refl

pub pretty_fields-Stops :
    (indent : String) (fs : Fields) (rest : String)
    → first_is is_digit (pretty_fields indent fs <> rest) ≡ false
unfolding pretty
pretty_fields-Stops indent end rest =
    ap (first_is is_digit) (append_assoc "\n" indent rest)
    ∙ first_is-append is_digit "\n" (indent <> rest) refl
pretty_fields-Stops indent (field k v fs) rest =
    let more =
      indent <> (quote k <> (": " <> (pretty (indent <> "  ") v <> pretty_fields indent fs))) in
    ap (first_is is_digit) (append_assoc ",\n  " more rest)
    ∙ first_is-append is_digit ",\n  " (more <> rest) refl

-- A printed value begins as a value does, whatever follows.
pub first_is-value :
    (indent : String) (j : Json) (rest : String)
    → first_is is_start (pretty indent j <> rest) ≡ true
first_is-value indent j rest = first_true is_start (pretty indent j) rest (first_is-pretty indent j)
