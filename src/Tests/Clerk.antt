-- ===== src/Tests/Clerk.antt =====
-- Tests of the check of Clerk sessions, and its theorems at concrete inputs. The one token that is
-- good is “jwt”.
use go_mcp_server.Base.{
  String, List, [], ◌∷◌, Option, none, some, Bool, true, false, ◌≡◌, refl, if◌then◌else◌, ◌==◌,
}
use go_mcp_server.Keys.{FetchInit, keys_proxy}
use go_mcp_server.Keys.StoredLabel.{trim_space}
use go_mcp_server.Clerk.{bearer_token, refused, admitted, require_user, serve_all}
use go_mcp_server.Clerk.Cached.{requests_of, AreVerdicts, direct, serve_all-cached}
use go_mcp_server.Clerk.Forwarded.{header_of, session_of, keys_proxy-claimed}

abbrev one_key : String → Option String
one_key token = some "ins_1"

abbrev subject : String → String → Option String
subject key token = if token == "jwt" then some "user_1" else none

abbrev jwks : String → Option String
jwks kid = if kid == "ins_1" then some "key" else none

-- Clerk answers the second request only.
abbrev requests : List (String × Bool)
requests =
    ("Bearer jwt", false)
    ∷ ("bearer jwt ", true)
    ∷ ("Bearer jwt", false)
    ∷ ("Bearer no", false)
    ∷ []

verdicts :
    serve_all one_key subject (requests_of one_key subject jwks requests) []
    ≡ refused 503 "cannot verify credentials"
      ∷ admitted "user_1"
      ∷ admitted "user_1"
      ∷ refused 401 "invalid token"
      ∷ []
unfolding serve_all require_user bearer_token trim_space
verdicts = refl

serve_all-cached_example :
    AreVerdicts one_key subject jwks requests
      (serve_all one_key subject (requests_of one_key subject jwks requests) [])
serve_all-cached_example = serve_all-cached one_key subject jwks requests

abbrev get_init : FetchInit
get_init = record { method = none; body = none }

jwt-clean : trim_space "jwt" ≡ "jwt"
unfolding trim_space
jwt-clean = refl

keys_proxy-claimed_example :
    (direct one_key subject jwks (
        header_of (
          keys_proxy "http://localhost:8080"
            (session_of "user_1" (some "jwt"))
            "/api/keys"
            get_init))
      ≡ admitted "user_1")
    × (direct one_key subject jwks (
          header_of
            (keys_proxy "http://localhost:8080" (session_of "user_1" none) "/api/keys" get_init))
        ≡ refused 401 "missing bearer token")
keys_proxy-claimed_example =
    keys_proxy-claimed one_key subject jwks "http://localhost:8080" "/api/keys" "user_1" "jwt"
      "ins_1" "key" get_init refl jwt-clean refl refl
