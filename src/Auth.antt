-- ===== src/Auth.antt =====
-- The keys that the Go server admits: internal/auth/apikey.go, as the middleware of
-- internal/mcpx/middleware.go asks it. The table `api_keys` is a list of keys with their ids; the
-- dashboard's handlers mint and revoke rows of it without the resolver.
pub mod Laws
use Prim.Native.String.{[], ◌∷◌}
use go_mcp_server.Base.{
  String, List, Char, code, Option, none, some, ℕ, zero, suc, Bool, true, false,
}
use go_mcp_server.Base.{not, ◌&&◌, ◌||◌, nat_eq, leb, if◌then◌else◌, lookup, keep, ◌==◌}

abbrev is_lower_hex : Char → Bool
is_lower_hex c =
    (leb b'0' (code c) && leb (code c) b'9') || (leb b'a' (code c) && leb (code c) b'f')

-- `[0-9a-f]{n}$`
abbrev hex_run : ℕ → String → Bool
hex_run zero [] = true
hex_run zero (c ∷ s) = false
hex_run (suc n) [] = false
hex_run (suc n) (c ∷ s) = is_lower_hex c && hex_run n s

-- `ValidFormat`: `^mcp_[0-9a-f]{32}$`
unfoldable pub valid_format : String → Bool
valid_format (m ∷ c ∷ p ∷ u ∷ s) =
    nat_eq (code m) b'm'
    && nat_eq (code c) b'c'
    && nat_eq (code p) b'p'
    && nat_eq (code u) b'_'
    && hex_run 32 s
valid_format s = false

pub data Resolved : Type 0 where
  resolved : (id : String) → Resolved
  malformed invalid_key : Resolved
  -- the database did not answer
  unavailable : Resolved

abbrev pub Rows : Type 0
Rows = List (String × String)

-- The query and what becomes of its answer; `up` says whether the database answers.
abbrev pub look_up : Bool → Rows → Rows → String → Resolved × Rows
look_up false table cache key = (unavailable, cache)
look_up true table cache key = elim (lookup key table) [
  | none ↦ (invalid_key, cache)
  | some id ↦ (resolved id, List.◌∷◌ (key, id) cache)
]

-- `Resolver.Resolve`: the answer, and the cache that it leaves.
unfoldable pub resolve : Bool → Rows → Rows → String → Resolved × Rows
unfolding valid_format
resolve up table cache key = elim (valid_format key) [
  | false ↦ (malformed, cache)
  | true ↦ elim (lookup key cache) [
    | some id ↦ (resolved id, cache)
    | none ↦ look_up up table cache key
  ]
]

pub record State : Type 0 where
  pub table : Rows
  pub cache : Rows

pub data Event : Type 0 where
  -- a request with a key, while the database answers or does not
  request : (up : Bool) (key : String) → Event
  mint : (key id : String) → Event
  revoke : (id : String) → Event

unfoldable pub step : State → Event → State
unfolding resolve
step s (request up key) = record s { cache = (resolve up s.table s.cache key).1 }
step s (mint key id) = record s { table = List.◌∷◌ (key, id) s.table }
step s (revoke id) = record s { table = keep (λ (_, i). not (i == id)) s.table }

unfoldable pub run : State → List Event → State
unfolding step
run s List.[] = s
run s (List.◌∷◌ e es) = run (step s e) es
