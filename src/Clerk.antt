-- ===== src/Clerk.antt =====
-- The check of a Clerk session before the key API: internal/clerkauth/clerkauth.go. Clerk's SDK is an
-- argument: the key id that it reads in a token (`jwt.Decode`), the subject that it finds in one with a
-- key (`jwt.Verify`), and the key that it fetches for an id.
pub mod Cached
pub mod Forwarded
use Prim.Native.String.{[], ◌∷◌}
use go_mcp_server.Base.{String, ℕ, ◌+◌, List, Option, none, some, code, Bool, true, false}
use go_mcp_server.Base.{◌&&◌, leb, nat_eq, if◌then◌else◌, is_empty, lookup}
use go_mcp_server.Keys.StoredLabel.{trim_space}

-- The lower case of an ASCII letter; no other character folds to a letter of “Bearer”.
abbrev lower : ℕ → ℕ
lower c = if leb 65 c && leb c 90 then c + 32 else c

-- What stands behind a prefix, by `strings.EqualFold`.
abbrev pub behind : String → String → Option String
behind [] h = some h
behind (p ∷ prefix) [] = none
behind (p ∷ prefix) (c ∷ h) =
    let rest = behind prefix h in if nat_eq (lower (code p)) (lower (code c)) then rest else none

-- `bearerToken`, of the text of the Authorization header, which is empty where there is none.
unfoldable pub bearer_token : String → String
bearer_token h = elim (behind "Bearer " h) [ none ↦ "" | some token ↦ trim_space token ]

-- What `RequireUser` makes of a request: an error, or the user for the handler's context.
pub data Verdict : Type 0 where
  refused : (status : ℕ) (text : String) → Verdict
  admitted : (user : String) → Verdict

-- `Authenticator.jsonWebKey`; the cache is the map `jwks`.
abbrev pub json_web_key :
    {Jwk : Type 0}
    → (String → Option Jwk)
    → String
    → List (String × Jwk)
    → Option Jwk × List (String × Jwk)
json_web_key fetch kid jwks = elim (lookup kid jwks) [
  | some key ↦ (some key, jwks)
  | none ↦ elim (fetch kid) [
    | some key ↦ (some key, List.◌∷◌ (kid, key) jwks)
    | none ↦ (none, jwks)
  ]
]

-- The end of `RequireUser`: what it makes of the claims.
abbrev pub claimed : Option String → Verdict
claimed none = refused 401 "invalid token"
claimed (some subject) =
    if is_empty subject then refused 401 "token has no subject" else admitted subject

module _ {Jwk : Type 0} (key_id : String → Option String)
    (verify : Jwk → String → Option String) where
  abbrev pub checked : String → Option Jwk → Verdict
  checked token none = refused 503 "cannot verify credentials"
  checked token (some key) = claimed (verify key token)

  -- `Authenticator.RequireUser`, up to the call of the handler.
  unfoldable pub require_user :
      (String → Option Jwk) → String → List (String × Jwk) → Verdict × List (String × Jwk)
  unfolding bearer_token
  require_user fetch header jwks =
      let token = bearer_token header in
      if is_empty token then (refused 401 "missing bearer token", jwks) else elim (key_id token) [
        | none ↦ (refused 401 "invalid token", jwks)
        | some kid ↦ let (key, jwks') = json_web_key fetch kid jwks in (checked token key, jwks')
      ]

  -- Some requests, one after another: the header of each, and the keys that Clerk gives by then.
  unfoldable pub serve_all :
      List (String × (String → Option Jwk)) → List (String × Jwk) → List Verdict
  unfolding require_user
  serve_all List.[] jwks = List.[]
  serve_all (List.◌∷◌ (header, fetch) requests) jwks =
      let (verdict, jwks') = require_user fetch header jwks in
      List.◌∷◌ verdict (serve_all requests jwks')
