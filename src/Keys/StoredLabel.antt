-- ===== src/Keys/StoredLabel.antt =====
-- The label that the server stores for the body that the dashboard posts: `Handler.Create` and
-- `clampLabel` of internal/keysapi/keys.go. What `json.Decoder.Decode` leaves in `body.Label` is an
-- argument.
use Prim.Native.String.{[], ◌∷◌}
use go_mcp_server.Base.{
  String, ◌<>◌, Char, code, ℕ, zero, suc, ◌≤◌, Bool, true, false, ◌&&◌, ◌||◌, not, some, ◌≡◌, refl,
  ap, ◌∙◌, arith, nat_eq, leb, ltb, if◌then◌else◌,
}
use go_mcp_server.Base.{trim, is_space, first_is, last_is, all_chars, drop_start, drop_end}
use go_mcp_server.Base.{trim-clean, drop_end_of_clean}
use go_mcp_server.Json.{str, obj, end, field, quote}
use go_mcp_server.Json.Read.{parse, read, result, step, value, alone, in_object}
use go_mcp_server.Json.Read.RoundTrip.{quote_value}
use go_mcp_server.Json.Read.Starts.{outcome-append}
use go_mcp_server.Dashboard.{utf16_length, post_body}
use go_mcp_server.Dashboard.Labels.{length-trim}

-- `unicode.IsSpace`
abbrev pub is_space_rune : Char → Bool
is_space_rune c =
    (leb 9 (code c) && leb (code c) 13)
    || nat_eq (code c) 32
    || nat_eq (code c) 0x85
    || nat_eq (code c) 0xa0
    || nat_eq (code c) 0x1680
    || (leb 0x2000 (code c) && leb (code c) 0x200a)
    || nat_eq (code c) 0x2028
    || nat_eq (code c) 0x2029
    || nat_eq (code c) 0x202f
    || nat_eq (code c) 0x205f
    || nat_eq (code c) 0x3000

-- `strings.TrimSpace(s)`
unfoldable pub trim_space : String → String
trim_space s = drop_end is_space_rune (drop_start is_space_rune s)

-- `len([]rune(s))`
abbrev pub rune_count : String → ℕ
rune_count [] = 0
rune_count (c ∷ s) = suc (rune_count s)

-- `string(r[:n])`
abbrev pub first_runes : ℕ → String → String
first_runes zero s = []
first_runes (suc n) [] = []
first_runes (suc n) (c ∷ s) = c ∷ first_runes n s

-- maxLabelRunes
abbrev pub max_label_runes : ℕ
max_label_runes = 60

unfoldable pub clamp_label : String → String
unfolding trim_space
clamp_label s =
    let s' = trim_space s in
    if ltb max_label_runes (rune_count s') then trim_space (first_runes max_label_runes s') else s'

-- The label that `Handler.Create` hands to the store, for a body.
abbrev pub create_label : (String → String) → String → String
create_label decoded_label body = clamp_label (decoded_label body)

-- The body that the dashboard posts is the JSON of an object with the trimmed label alone.
pub parse-post_body :
    (label : String) → parse (post_body label) ≡ some (obj (field "label" (str (trim label)) end))
unfolding parse read step result
parse-post_body label =
    let text = trim label in
    outcome-append (value alone) (value (in_object end "label" alone)) "{\"label\":"
      (quote text <> "}") refl
    ∙ quote_value text "}" (in_object end "label" alone)

rune_count-utf16_length : (s : String) → rune_count s ≤ utf16_length s
rune_count-utf16_length [] = omega arith
rune_count-utf16_length (c ∷ s) = ground (arith, rune_count-utf16_length s)

rune_count-drop_start : (p : Char → Bool) (s : String) → rune_count (drop_start p s) ≤ rune_count s
rune_count-drop_start p [] = omega arith
rune_count-drop_start p (c ∷ s) = ground (arith, rune_count-drop_start p s)

rune_count-drop_end : (p : Char → Bool) (s : String) → rune_count (drop_end p s) ≤ rune_count s
rune_count-drop_end p [] = omega arith
rune_count-drop_end p (c ∷ s) = ground (arith, rune_count-drop_end p s)

rune_count-trim_space : (s : String) → rune_count (trim_space s) ≤ rune_count s
unfolding trim_space
rune_count-trim_space s =
    let start = rune_count-drop_start is_space_rune s in
    let tail = rune_count-drop_end is_space_rune (drop_start is_space_rune s) in
    omega (arith, start, tail)

abbrev pub is_next_line : Char → Bool
is_next_line c = nat_eq (code c) 0x85

-- No rune U+0085, which Go's white space has and JavaScript's has not.
abbrev pub has_no_next_line : String → Bool
has_no_next_line s = all_chars (λ c. not (is_next_line c)) s

all_chars-drop_start :
    (p q : Char → Bool) (s : String) → all_chars q s ≡ true → all_chars q (drop_start p s) ≡ true
all_chars-drop_start p q [] h = refl
all_chars-drop_start p q (c ∷ s) h = ground (arith, all_chars-drop_start p q s)

all_chars-drop_end :
    (p q : Char → Bool) (s : String) → all_chars q s ≡ true → all_chars q (drop_end p s) ≡ true
all_chars-drop_end p q [] h = refl
all_chars-drop_end p q (c ∷ s) h = ground (arith, all_chars-drop_end p q s)

is_space-is_space_rune :
    (c : Char) → is_space (code c) ≡ false → is_next_line c ≡ false → is_space_rune c ≡ false
unfolding is_space
is_space-is_space_rune c h k = ground arith

first_is-rune :
    (s : String)
    → first_is (λ c. is_space (code c)) s ≡ false
    → has_no_next_line s ≡ true
    → first_is is_space_rune s ≡ false
first_is-rune [] h k = refl
first_is-rune (c ∷ s) h k = is_space-is_space_rune c h (ground arith)

last_is-rune :
    (s : String)
    → last_is (λ c. is_space (code c)) s ≡ false
    → has_no_next_line s ≡ true
    → last_is is_space_rune s ≡ false
last_is-rune [] h k = refl
last_is-rune (c ∷ []) h k = is_space-is_space_rune c h (ground arith)
last_is-rune (c ∷ d ∷ s) h k = last_is-rune (d ∷ s) h (ground arith)

drop_start_of_clean : (p : Char → Bool) (s : String) → first_is p s ≡ false → drop_start p s ≡ s
drop_start_of_clean p [] h = refl
drop_start_of_clean p (c ∷ s) h = rw h refl

-- Go's white space is gone where JavaScript's is, U+0085 aside.
trim_space-trim : (s : String) → has_no_next_line s ≡ true → trim_space (trim s) ≡ trim s
unfolding trim_space
trim_space-trim s h =
    let p = λ (c : Char). is_space (code c) in
    let q = λ (c : Char). not (is_next_line c) in
    let (starts, ends) = trim-clean s in
    let plain : has_no_next_line (trim s) ≡ true =
      unfold trim in all_chars-drop_end p q (drop_start p s) (all_chars-drop_start p q s h) in
    ap (drop_end is_space_rune)
      (drop_start_of_clean is_space_rune (trim s) (first_is-rune (trim s) starts plain))
    ∙ drop_end_of_clean is_space_rune (trim s) (last_is-rune (trim s) ends plain)

clamp_label_of_short : (s : String) → rune_count s ≤ 60 → clamp_label s ≡ trim_space s
unfolding clamp_label
clamp_label_of_short s h = let short = rune_count-trim_space s in ground (arith, short)

-- For a label that the field holds (at most 60 UTF-16 code units) without the rune U+0085, the
-- server stores for the posted body exactly the trimmed label: it is never cut. That is so with any
-- decoder that finds the label in a body that parses to an object with this field alone.
pub create_label-post_body :
    (decoded_label : String → String) (label : String)
    → ((body s : String)
        → parse body ≡ some (obj (field "label" (str s) end))
        → decoded_label body ≡ s)
    → utf16_length label ≤ 60
    → has_no_next_line label ≡ true
    → create_label decoded_label (post_body label) ≡ trim label
create_label-post_body decoded_label label decodes short plain =
    let runes = rune_count-utf16_length (trim label) in
    let trimmed = length-trim label in
    ap clamp_label (decodes (post_body label) (trim label) (parse-post_body label))
    ∙ clamp_label_of_short (trim label) (omega (arith, short, runes, trimmed))
    ∙ trim_space-trim label plain
