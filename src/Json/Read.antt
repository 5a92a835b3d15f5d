-- ===== src/Json/Read.antt =====
-- `JSON.parse` (ECMA-262; RFC 8259), character by character. Read are the texts whose numbers are
-- natural numbers in decimal and whose `\u` escapes are no surrogates; the others are refused here.
pub mod Strings
pub mod Numbers
pub mod Starts
pub mod RoundTrip
use Prim.Native.String.{[], ◌∷◌}
use go_mcp_server.Base.{
  String, ◌<>◌, Char, code, ℕ, ◌+◌, ◌-◌, ◌*◌, suc, zero, true, false, nat_eq, leb, if◌then◌else◌,
  Option, none, some,
}
use go_mcp_server.Json.{Json, null, bool, num, str, arr, obj, Items, nil, item, Fields, end, field}
use go_mcp_server.Json.Escapes.{is_white, is_digit, of_code, hex_value, escaped}

-- `a`, then `b`
abbrev pub items_append : Items → Items → Items
items_append nil b = b
items_append (item v a) b = item v (items_append a b)

abbrev pub fields_append : Fields → Fields → Fields
fields_append end b = b
fields_append (field k v a) b = field k v (fields_append a b)

-- The arrays and objects around a value, the innermost first, with what they held before it.
pub data Around : Type 0 where
  alone : Around
  in_array : Items → Around → Around
  in_object : Fields → String → Around → Around

-- What a text between quotes is.
pub data Role : Type 0 where
  value_text : Around → Role
  key_text : Fields → Around → Role

-- What was read, and what may come next.
pub data Reader : Type 0 where
  value : Around → Reader
  first_item : Around → Reader
  after_item : Items → Around → Reader
  first_key : Around → Reader
  next_key : Fields → Around → Reader
  colon : Fields → String → Around → Reader
  after_field : Fields → Around → Reader
  in_text : String → Role → Reader
  escape : String → Role → Reader
  -- the digits of a `\u` escape that are left, one more than the number, and their value so far
  unicode : ℕ → ℕ → String → Role → Reader
  -- a number that begins with 0, and one that does not
  zeros : Around → Reader
  number : ℕ → Around → Reader
  -- the rest of `null`, `true` or `false`
  word : String → Json → Around → Reader
  done : Json → Reader

-- The value is complete.
abbrev pub push : Json → Around → Reader
push j alone = done j
push j (in_array items around) = after_item (items_append items (item j nil)) around
push j (in_object fields key around) = after_field (fields_append fields (field key j end)) around

abbrev pub close_text : String → Role → Reader
close_text s (value_text around) = push (str s) around
close_text s (key_text fields around) = colon fields s around

abbrev pub spell : String → Json → Around → Option Reader
spell [] j around = some (push j around)
spell (c ∷ s) j around = some (word (c ∷ s) j around)

abbrev pub begin_value : Char → Around → Option Reader
begin_value c around =
    if is_white c
    then some (value around)
    else if nat_eq (code c) b'"'
    then some (in_text [] (value_text around))
    else if nat_eq (code c) b'['
    then some (first_item around)
    else if nat_eq (code c) b'{'
    then some (first_key around)
    else if nat_eq (code c) b'n'
    then some (word "ull" null around)
    else if nat_eq (code c) b't'
    then some (word "rue" (bool true) around)
    else if nat_eq (code c) b'f'
    then some (word "alse" (bool false) around)
    else if nat_eq (code c) b'0'
    then some (zeros around)
    else if is_digit c
    then some (number (code c - b'0') around)
    else none

-- Behind a value.
abbrev pub proceed : Reader → Char → Option Reader
proceed (done j) c = if is_white c then some (done j) else none
proceed (after_item items around) c =
    if is_white c
    then some (after_item items around)
    else if nat_eq (code c) b','
    then some (value (in_array items around))
    else if nat_eq (code c) b']'
    then some (push (arr items) around)
    else none
proceed (after_field fields around) c =
    if is_white c
    then some (after_field fields around)
    else if nat_eq (code c) b','
    then some (next_key fields around)
    else if nat_eq (code c) b'}'
    then some (push (obj fields) around)
    else none
proceed _ c = none

abbrev pub add_char : Option Char → String → Role → Option Reader
add_char none s role = none
add_char (some c) s role = some (in_text (s <> (c ∷ [])) role)

abbrev pub add_code : Option ℕ → String → Role → Option Reader
add_code none s role = none
add_code (some n) s role = add_char (of_code n) s role

abbrev pub add_digit : Option ℕ → ℕ → ℕ → String → Role → Option Reader
add_digit none left n s role = none
add_digit (some d) zero n s role = add_char (of_code (n * 16 + d)) s role
add_digit (some d) (suc left) n s role = some (unicode left (n * 16 + d) s role)

unfoldable pub step : Reader → Char → Option Reader
step (value around) c = begin_value c around
step (first_item around) c =
    if is_white c
    then some (first_item around)
    else if nat_eq (code c) b']'
    then some (push (arr nil) around)
    else begin_value c (in_array nil around)
step (first_key around) c =
    if is_white c
    then some (first_key around)
    else if nat_eq (code c) b'"'
    then some (in_text [] (key_text end around))
    else if nat_eq (code c) b'}'
    then some (push (obj end) around)
    else none
step (next_key fields around) c =
    if is_white c
    then some (next_key fields around)
    else if nat_eq (code c) b'"'
    then some (in_text [] (key_text fields around))
    else none
step (colon fields key around) c =
    if is_white c
    then some (colon fields key around)
    else if nat_eq (code c) b':'
    then some (value (in_object fields key around))
    else none
step (in_text s role) c =
    if nat_eq (code c) b'"'
    then some (close_text s role)
    else if nat_eq (code c) b'\\'
    then some (escape s role)
    else if leb 32 (code c)
    then some (in_text (s <> (c ∷ [])) role)
    else none
step (escape s role) c =
    if nat_eq (code c) b'u' then some (unicode 3 0 s role) else add_code (escaped c) s role
step (unicode left n s role) c = add_digit (hex_value c) left n s role
step (zeros around) c = proceed (push (num 0) around) c
step (number n around) c =
    if is_digit c
    then some (number (n * 10 + (code c - b'0')) around)
    else proceed (push (num n) around) c
step (word [] j around) c = none
step (word (d ∷ s) j around) c = if nat_eq (code c) (code d) then spell s j around else none
step (after_item items around) c = proceed (after_item items around) c
step (after_field fields around) c = proceed (after_field fields around) c
step (done j) c = proceed (done j) c

unfoldable pub read : Reader → String → Option Reader
unfolding step
read r [] = some r
read r (c ∷ s) = elim (step r c) [ none ↦ none | some r' ↦ read r' s ]

-- The value of a text that ends here.
unfoldable pub result : Option Reader → Option Json
result none = none
result (some (done j)) = some j
result (some (zeros alone)) = some (num 0)
result (some (number n alone)) = some (num n)
result (some _) = none

unfoldable pub parse : String → Option Json
unfolding read result
parse s = result (read (value alone) s)

-- What a text leads to behind what was read.
abbrev pub outcome : Reader → String → Option Json
outcome r s = result (read r s)
