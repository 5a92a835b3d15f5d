-- ===== src/Json.antt =====
-- `JSON.stringify`, which frontend/src/lib/docs.tsx and the dashboard call (ECMA-262, JSON). The
-- numbers that the program writes are natural numbers.
pub mod Escapes
pub mod Read
use Prim.Native.String.{[], ◌∷◌, char_at}
use go_mcp_server.Base.{String, ◌<>◌, Char, code, ℕ, ◌/◌, ◌%◌, Bool, true, false, suc, zero}
use go_mcp_server.Base.{nat_eq, ltb, if◌then◌else◌}

mutual
  pub data Json : Type 0 where
    null : Json
    bool : Bool → Json
    num : ℕ → Json
    str : String → Json
    arr : Items → Json
    obj : Fields → Json

  pub data Items : Type 0 where
    nil : Items
    item : Json → Items → Items

  pub data Fields : Type 0 where
    end : Fields
    field : String → Json → Fields → Fields

abbrev pub lower_hex : ℕ → Char
lower_hex n = char_at "0123456789abcdef" n

-- One character of a quoted text (QuoteJSONString).
unfoldable pub quote_char : Char → String → String
quote_char c rest =
    if nat_eq (code c) 0x22
    then "\\\"" <> rest
    else if nat_eq (code c) 0x5c
    then "\\\\" <> rest
    else if nat_eq (code c) 8
    then "\\b" <> rest
    else if nat_eq (code c) 9
    then "\\t" <> rest
    else if nat_eq (code c) 10
    then "\\n" <> rest
    else if nat_eq (code c) 12
    then "\\f" <> rest
    else if nat_eq (code c) 13
    then "\\r" <> rest
    else if ltb (code c) 32
    then "\\u00" <> (lower_hex (code c / 16) ∷ lower_hex (code c % 16) ∷ rest)
    else c ∷ rest

unfoldable pub quote_rest : String → String
quote_rest [] = "\""
quote_rest (c ∷ s) = quote_char c (quote_rest s)

unfoldable pub quote : String → String
unfolding quote_rest quote_char
quote s = "\"" <> quote_rest s

abbrev pub decimal_digit : ℕ → Char
decimal_digit n = char_at "0123456789" n

-- A number in decimal, by the digits that are left; the fuel is the number itself and one more.
unfoldable pub digits : ℕ → ℕ → String → String
digits zero n acc = acc
digits (suc f) n acc =
    let acc' = decimal_digit (n % 10) ∷ acc in
    let more = digits f (n / 10) acc' in if ltb n 10 then acc' else more

unfoldable pub decimal : ℕ → String
unfolding digits
decimal n = digits (suc n) n []

-- `JSON.stringify(v, null, 2)`; `indent` is the indentation of the line that the value begins on.
unfoldable mutual
  unfolding quote decimal

  pub pretty : String → Json → String
  pretty indent null = "null"
  pretty indent (bool true) = "true"
  pretty indent (bool false) = "false"
  pretty indent (num n) = decimal n
  pretty indent (str s) = quote s
  pretty indent (arr nil) = "[]"
  pretty indent (arr (item v vs)) =
      "[\n  " <> (indent <> (pretty (indent <> "  ") v <> (pretty_items indent vs <> "]")))
  pretty indent (obj end) = "{}"
  pretty indent (obj (field k v fs)) =
      "{\n  "
      <> (indent
          <> (quote k <> (": " <> (pretty (indent <> "  ") v <> (pretty_fields indent fs <> "}")))))

  pretty_items : String → Items → String
  pretty_items indent nil = "\n" <> indent
  pretty_items indent (item v vs) =
      ",\n  " <> (indent <> (pretty (indent <> "  ") v <> pretty_items indent vs))

  pretty_fields : String → Fields → String
  pretty_fields indent end = "\n" <> indent
  pretty_fields indent (field k v fs) =
      ",\n  "
      <> (indent <> (quote k <> (": " <> (pretty (indent <> "  ") v <> pretty_fields indent fs))))
