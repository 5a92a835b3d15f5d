-- ===== src/Clerk/Forwarded.antt =====
-- A request of the site's handlers at the check of the Go server.
use Prim.Native.String.{[], ◌∷◌}
use text.Mathlib.TextLemmas.{nil-append, cons-append}
use mathlib.Core.Option.{get_or}
use go_mcp_server.Base.{String, ◌<>◌, Option, none, some, false}
use go_mcp_server.Base.{◌≡◌, refl, ◌∙◌, ap, lookup, is_empty, arith}
use go_mcp_server.Keys.{FetchInit, FetchRequest, Session, keys_proxy}
use go_mcp_server.Keys.Laws.{authorization-lookup, bearer}
use go_mcp_server.Keys.StoredLabel.{trim_space}
use go_mcp_server.Clerk.{behind, bearer_token, refused, require_user, claimed}
use go_mcp_server.Clerk.Cached.{direct, uncached}

behind-append : (prefix t : String) → behind prefix (prefix <> t) ≡ some t
behind-append [] t = rw nil-append refl
behind-append (c ∷ prefix) t = rw cons-append (ground (arith, behind-append prefix t))

-- `r.Header.Get("Authorization")`
abbrev pub header_of : FetchRequest → String
header_of req = get_or (lookup "Authorization" req.headers) ""

header_of-keys_proxy :
    (base path : String) (session : Session) (init : FetchInit)
    → header_of (keys_proxy base session path init) ≡ get_or (bearer session.token) ""
unfolding keys_proxy
header_of-keys_proxy base path session init = rw (authorization-lookup session.token) refl

bearer_token-bearer :
    (t : String)
    → is_empty t ≡ false
    → trim_space t ≡ t
    → bearer_token (get_or (bearer (some t)) "") ≡ t
unfolding bearer_token
bearer_token-bearer t full clean = rw (full, bearer_token, behind-append "Bearer " t) clean

direct-claimed :
    {Jwk : Type 0} (key_id : String → Option String) (verify : Jwk → String → Option String)
    (published : String → Option Jwk) (t kid : String) (key : Jwk) (header : String)
    → bearer_token header ≡ t
    → is_empty t ≡ false
    → key_id t ≡ some kid
    → published kid ≡ some key
    → direct key_id verify published header ≡ claimed (verify key t)
unfolding require_user
direct-claimed key_id verify published t kid key header same full is known =
    let full' : is_empty (bearer_token header) ≡ false = rw same full in
    let is' : key_id (bearer_token header) ≡ some kid = rw same is in
    rw (direct, full', is', uncached key_id verify published kid, known)
      (ap (λ token. claimed (verify key token)) same)

-- A session of a user with some token.
abbrev pub session_of : String → Option String → Session
session_of user token = record { user_id = some user; token = token }

-- The site's session token is the one that the Go server checks, for each request that the site's
-- handlers send: the verdict is that of the claims which Clerk's key finds in the token, so that the
-- request is admitted as their subject, and refused with 401 where there is none; and without a token
-- it is refused with 401. The token has no white space at its ends, and Clerk publishes its key.
pub keys_proxy-claimed :
    {Jwk : Type 0} (key_id : String → Option String) (verify : Jwk → String → Option String)
    (published : String → Option Jwk) (base path user t kid : String) (key : Jwk) (init : FetchInit)
    → is_empty t ≡ false
    → trim_space t ≡ t
    → key_id t ≡ some kid
    → published kid ≡ some key
    → (direct key_id verify published
          (header_of (keys_proxy base (session_of user (some t)) path init))
        ≡ claimed (verify key t))
      × (direct key_id verify published
            (header_of (keys_proxy base (session_of user none) path init))
          ≡ refused 401 "missing bearer token")
unfolding require_user bearer_token trim_space
keys_proxy-claimed key_id verify published base path user t kid key init full clean is known =
    let signed = header_of-keys_proxy base path (session_of user (some t)) init in
    let bare = header_of-keys_proxy base path (session_of user none) init in
    let same = ap bearer_token signed ∙ bearer_token-bearer t full clean in
    (
      direct-claimed key_id verify published t kid key
          (header_of (keys_proxy base (session_of user (some t)) path init)) same full is known,
      rw (direct, bare) refl,
    )
