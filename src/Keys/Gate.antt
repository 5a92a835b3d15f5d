-- ===== src/Keys/Gate.antt =====
-- The gate before the handlers: frontend/src/proxy.ts. Clerk is an argument: `createRouteMatcher`
-- as a function of the patterns and a path, and `auth.protect()` as a test of the session. Next's
-- reading of `config.matcher` is written out for the two expressions that the file gives.
use Prim.Native.String.{[], ◌∷◌}
use text.Mathlib.TextLemmas.{cons-append}
use go_mcp_server.Base.{String, ◌<>◌, List, code, Option, none, some, Bool, true, false, not}
use go_mcp_server.Base.{◌≡◌, refl, ◌||◌, ◌&&◌, inl, inr, arith, begins_with, ◌⊎◌}
use go_mcp_server.Base.{nat_eq, contains, if◌then◌else◌}
use go_mcp_server.Keys.{Session, truthy}

-- A suffix of a static file, at the text behind a dot; `js(?!on)`.
abbrev static_at : String → Bool
static_at s =
    begins_with s "htm"
    || begins_with s "css"
    || (begins_with s "js" && not (begins_with s "json"))
    || begins_with s "jpeg"
    || begins_with s "jpg"
    || begins_with s "webp"
    || begins_with s "png"
    || begins_with s "gif"
    || begins_with s "svg"
    || begins_with s "ttf"
    || begins_with s "woff"
    || begins_with s "ico"
    || begins_with s "csv"
    || begins_with s "doc"
    || begins_with s "xls"
    || begins_with s "zip"
    || begins_with s "webmanifest"

-- `[^?]*\.(?:…)`
abbrev has_static : String → Bool
has_static [] = false
has_static (c ∷ s) =
    not (nat_eq (code c) b'?') && ((nat_eq (code c) b'.' && static_at s) || has_static s)

-- `/((?!_next|…).*)`
abbrev is_page : String → Bool
is_page [] = false
is_page (c ∷ s) = nat_eq (code c) b'/' && not (begins_with s "_next" || has_static s)

-- The paths that the middleware runs on: `config.matcher`.
unfoldable pub runs_on : String → Bool
runs_on path = is_page path || begins_with path "/api" || begins_with path "/trpc"

abbrev pub protected_patterns : List String
protected_patterns = List.◌∷◌ "/doc/keys(.*)" (List.◌∷◌ "/api/keys(.*)" List.[])

-- What the middleware makes of a request: `protect` ends it, or it goes on to its handler.
pub data Verdict : Type 0 where
  next stopped : Verdict

module _ (route_matcher : List String → String → Bool) (protect : Session → Bool) where
  -- The callback of `clerkMiddleware`.
  unfoldable pub middleware : Session → String → Verdict
  middleware session path =
      if route_matcher protected_patterns path && not (protect session) then stopped else next

  -- A request on its way to its handler.
  unfoldable pub serve {ℓ} :
      {State : Type 0} {Answer : Type ℓ}
      → Session
      → String
      → (State → Answer × State)
      → State
      → Option Answer × State
  unfolding middleware runs_on
  serve session path handler st = elim (runs_on path) [
    | false ↦ let (answer, st') = handler st in (some answer, st')
    | true ↦ elim (middleware session path) [
      | stopped ↦ (none, st)
      | next ↦ let (answer, st') = handler st in (some answer, st')
    ]
  ]

-- The dashboard, and every address of the key API.
abbrev pub IsKeyRoute : String → Type 0
IsKeyRoute path = (path ≡ "/doc/keys") ⊎ (begins_with path "/api/keys" ≡ true)

-- Clerk's documentation of `(.*)`: a pattern that ends in it matches every path that begins with
-- what stands before it.
abbrev pub IsRouteMatcher : (List String → String → Bool) → Type 0
IsRouteMatcher route_matcher =
    (patterns : List String) (start path : String)
    → contains patterns (start <> "(.*)") ≡ true
    → begins_with path start ≡ true
    → route_matcher patterns path ≡ true

-- Clerk's documentation of `auth.protect()`: a request without a user does not go on.
abbrev pub IsProtect : (Session → Bool) → Type 0
IsProtect protect = (session : Session) → truthy session.user_id ≡ false → protect session ≡ false

begins_with-append :
    (path s t : String) → begins_with path (s <> t) ≡ true → begins_with path s ≡ true
begins_with-append path [] t h = refl
begins_with-append [] (d ∷ s) t h =
    let more : begins_with [] (d ∷ (s <> t)) ≡ true = rw cons-append at h in more
begins_with-append (c ∷ path) (d ∷ s) t h =
    let more : begins_with (c ∷ path) (d ∷ (s <> t)) ≡ true = rw cons-append at h in
    ground (arith, begins_with-append path s t)

key_route-runs : (path : String) → IsKeyRoute path → runs_on path ≡ true
unfolding runs_on
key_route-runs path (inl page) =
    let computed : runs_on "/doc/keys" ≡ true = refl in rw (page, computed) refl
key_route-runs path (inr api) = ground (arith, begins_with-append path "/api" "/keys" api)

key_route-matches :
    (route_matcher : List String → String → Bool) (path : String)
    → IsRouteMatcher route_matcher
    → IsKeyRoute path
    → route_matcher protected_patterns path ≡ true
key_route-matches route_matcher path m (inl page) =
    m protected_patterns "/doc/keys" path refl (rw page refl)
key_route-matches route_matcher path m (inr api) = m protected_patterns "/api/keys" path refl api

-- A request of the dashboard or of the key API that has no user is stopped before its handler, and
-- the handler's state is as it was.
pub serve-signed_out {ℓ} :
    (route_matcher : List String → String → Bool) (protect : Session → Bool) (session : Session)
    (path : String) {State : Type 0} {Answer : Type ℓ} (handler : State → Answer × State)
    (st : State)
    → IsRouteMatcher route_matcher
    → IsProtect protect
    → truthy session.user_id ≡ false
    → IsKeyRoute path
    → serve route_matcher protect session path handler st ≡ (none, st)
unfolding serve middleware
serve-signed_out route_matcher protect session path handler st m p h key =
    rw
      (
        serve,
        key_route-runs path key,
        middleware,
        key_route-matches route_matcher path m key,
        p session h,
      )
      refl
