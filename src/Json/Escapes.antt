-- ===== src/Json/Escapes.antt =====
-- The characters of a JSON text (RFC 8259): white space, digits, hexadecimal digits and escapes, as
-- `JSON.parse` and `res.json()` read them.
use Prim.Native.Nat.{Ordering, compare}
use Prim.Native.Char.{char, IsLt}
use go_mcp_server.Base.{
  Char, code, ℕ, ◌+◌, ◌-◌, Bool, ◌&&◌, ◌||◌, nat_eq, leb, if◌then◌else◌, Option, none, some,
}

abbrev pub is_white : Char → Bool
is_white c = nat_eq (code c) 32 || nat_eq (code c) 9 || nat_eq (code c) 10 || nat_eq (code c) 13

abbrev pub is_digit : Char → Bool
is_digit c = leb b'0' (code c) && leb (code c) b'9'

-- The cases of `IsScalar` (Prim.Native.Char).
abbrev pub Both : Ordering → Ordering → Type 0
Both Ordering.lt o = IsLt o
Both Ordering.eq _ = ⊥
Both Ordering.gt _ = ⊥

abbrev pub Scalar : Ordering → Ordering → Ordering → Type 0
Scalar Ordering.lt _ _ = Unit
Scalar Ordering.eq o p = Both o p
Scalar Ordering.gt o p = Both o p

abbrev below : (o : Ordering) → Option (IsLt o)
below Ordering.lt = some tt
below Ordering.eq = none
below Ordering.gt = none

abbrev between : (o p : Ordering) → Option (Both o p)
between Ordering.lt p = below p
between Ordering.eq _ = none
between Ordering.gt _ = none

abbrev pub scalar : (o p q : Ordering) → Option (Scalar o p q)
scalar Ordering.lt _ _ = some tt
scalar Ordering.eq p q = between p q
scalar Ordering.gt p q = between p q

-- The character of a number; a surrogate has none.
abbrev pub of_code : ℕ → Option Char
of_code n = elim (scalar (compare n 55296) (compare 57343 n) (compare n 1114112)) [
  | none ↦ none
  | some p ↦ some (char n p)
]

-- The value of a hexadecimal digit.
abbrev pub hex_value : Char → Option ℕ
hex_value c =
    if is_digit c
    then some (code c - b'0')
    else if leb b'a' (code c) && leb (code c) b'f'
    then some (code c - b'a' + 10)
    else if leb b'A' (code c) && leb (code c) b'F'
    then some (code c - b'A' + 10)
    else none

-- The character that a character behind a backslash stands for, `u` aside.
abbrev pub escaped : Char → Option ℕ
escaped c =
    if nat_eq (code c) b'"' || nat_eq (code c) b'\\' || nat_eq (code c) b'/'
    then some (code c)
    else if nat_eq (code c) b'b'
    then some 8
    else if nat_eq (code c) b't'
    then some 9
    else if nat_eq (code c) b'n'
    then some 10
    else if nat_eq (code c) b'f'
    then some 12
    else if nat_eq (code c) b'r'
    then some 13
    else none
