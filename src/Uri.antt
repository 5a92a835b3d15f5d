-- ===== src/Uri.antt =====
-- `encodeURIComponent`, which frontend/src/app/api/keys/[id]/route.ts calls: the characters that
-- it keeps, and the UTF-8 bytes of the others as percent-escapes (ECMA-262, Encode).
pub mod Laws
use Prim.Native.String.{[], ◌∷◌, char_at}
use go_mcp_server.Base.{String, Char, code, ℕ, ◌+◌, ◌/◌, ◌%◌, Bool, ◌&&◌, ◌||◌, List, ltb, leb}
use go_mcp_server.Base.{nat_eq, if◌then◌else◌}

-- The UTF-8 bytes of a code point.
unfoldable pub utf8 : ℕ → List ℕ
utf8 n =
    if ltb n 0x80
    then List.◌∷◌ n List.[]
    else if ltb n 0x800
    then List.◌∷◌ (0xc0 + n / 0x40) (List.◌∷◌ (0x80 + n % 0x40) List.[])
    else if ltb n 0x10000
    then List.◌∷◌ (0xe0 + n / 0x1000)
        (List.◌∷◌ (0x80 + n / 0x40 % 0x40) (List.◌∷◌ (0x80 + n % 0x40) List.[]))
    else List.◌∷◌ (0xf0 + n / 0x40000) (
        List.◌∷◌ (0x80 + n / 0x1000 % 0x40)
          (List.◌∷◌ (0x80 + n / 0x40 % 0x40) (List.◌∷◌ (0x80 + n % 0x40) List.[])))

-- `A-Z a-z 0-9 - _ . ! ~ * ' ( )`
unfoldable pub is_unreserved : ℕ → Bool
is_unreserved n =
    (leb b'A' n && leb n b'Z')
    || (leb b'a' n && leb n b'z')
    || (leb b'0' n && leb n b'9')
    || nat_eq n b'-'
    || nat_eq n b'_'
    || nat_eq n b'.'
    || nat_eq n b'!'
    || nat_eq n b'~'
    || nat_eq n b'*'
    || nat_eq n 0x27
    || nat_eq n b'('
    || nat_eq n b')'

unfoldable pub hex_digit : ℕ → Char
hex_digit n = char_at "0123456789ABCDEF" n

unfoldable pub escape : List ℕ → String → String
escape List.[] rest = rest
escape (List.◌∷◌ b bs) rest = "%" ∷ hex_digit (b / 16) ∷ hex_digit (b % 16) ∷ escape bs rest

unfoldable pub encode_uri_component : String → String
encode_uri_component [] = []
encode_uri_component (c ∷ s) =
    let rest = encode_uri_component s in
    if is_unreserved (code c) then c ∷ rest else escape (utf8 (code c)) rest
