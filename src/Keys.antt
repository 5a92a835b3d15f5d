-- ===== src/Keys.antt =====
-- The key API of the site: frontend/src/lib/api-keys.ts and the handlers under
-- frontend/src/app/api/keys. The Go server that they call is an argument: a state, and what a
-- `fetch` gives in it.
pub mod Laws
pub mod StoredLabel
pub mod Gate
pub mod Listing
use go_mcp_server.Base.{String, ◌<>◌, List, [], ◌∷◌, Option, none, some, ℕ, Bool, true, false, not}
use go_mcp_server.Base.{is_empty, leb, nat_eq, ltb, if◌then◌else◌, ◌||◌}
use go_mcp_server.Uri.{encode_uri_component}
use mathlib.Core.Option.{get_or}

pub record FetchRequest : Type 0 where
  pub url : String
  pub method : String
  pub headers : List (String × String)
  pub body : Option String
  pub cache : String

pub record Response : Type 0 where
  pub status : ℕ
  pub headers : List (String × String)
  pub body : String

-- `fetch`: the response, or `none` where the promise is rejected, and the server's next state.
pub record Remote : Type 1 where
  pub State : Type 0
  pub fetch : State → FetchRequest → Option Response × State

-- What Clerk's `auth()` says of the request: `userId`, and what `getToken()` gives.
pub record Session : Type 0 where
  pub user_id : Option String
  pub token : Option String

-- The truth value of a text that may be null.
abbrev pub truthy : Option String → Bool
truthy none = false
truthy (some t) = not (is_empty t)

pub record FetchInit : Type 0 where
  pub method : Option String
  pub body : Option String

abbrev pub json_type : String × String
json_type = ("Content-Type", "application/json")

-- `token ? { Authorization: … } : {}`
abbrev pub authorization : Option String → List (String × String)
authorization none = []
authorization (some t) = if is_empty t then [] else ("Authorization", "Bearer " <> t) ∷ []

-- The request that `keysProxy` sends; `base` is `MCP_BASE_URL`.
unfoldable pub keys_proxy : String → Session → String → FetchInit → FetchRequest
keys_proxy base session path init = record {
  url = base <> path;
  method = get_or init.method "GET";
  headers = json_type ∷ authorization session.token;
  body = init.body;
  cache = "no-store";
}

pub data Error : Type 0 where
  -- the promise of `fetch` was rejected
  network_error : Error
  -- `new Response` refuses a status outside 200 to 599
  range_error : Error
  -- `new Response` refuses a body with the status 204, 205 or 304
  type_error : Error

-- What a handler's promise ends in.
pub data Outcome : Type 0 where
  returned : Response → Outcome
  threw : Error → Outcome

abbrev pub null_body_status : ℕ → Bool
null_body_status status = nat_eq status 204 || nat_eq status 205 || nat_eq status 304

-- `new Response(body, { status, headers })`
abbrev pub new_response : String → ℕ → List (String × String) → Outcome
new_response body status headers =
    if ltb status 200 || ltb 599 status
    then threw range_error
    else if null_body_status status
    then threw type_error
    else returned (record { status = status; headers = headers; body = body })

-- `Response.json({ error: "Unauthorized" }, { status: 401 })`
abbrev pub unauthorized : Response
unauthorized = record {
  status = 401;
  headers = json_type ∷ [];
  body = "{\"error\":\"Unauthorized\"}";
}

-- `relay`, of the outcome of a `fetch`
abbrev pub relay : Option Response → Outcome
relay none = threw network_error
relay (some res) = new_response res.body res.status (json_type ∷ [])

module _ (remote : Remote) (base : String) where
  abbrev pub forward : Session → String → FetchInit → remote.State → Outcome × remote.State
  forward session path init st =
      let (res, st') = remote.fetch st (keys_proxy base session path init) in (relay res, st')

  -- `if (!userId) return …`
  abbrev pub with_user :
      Session → (remote.State → Outcome × remote.State) → remote.State → Outcome × remote.State
  with_user session handler st =
      if truthy session.user_id then handler st else (returned unauthorized, st)

  -- `GET /api/keys`
  unfoldable pub get_keys : Session → remote.State → Outcome × remote.State
  unfolding keys_proxy
  get_keys session =
      with_user session (forward session "/api/keys" (record { method = none; body = none }))

  -- `POST /api/keys`; `body` is the text of the request.
  unfoldable pub post_keys : Session → String → remote.State → Outcome × remote.State
  unfolding keys_proxy
  post_keys session body =
      with_user session
        (forward session "/api/keys" (record { method = some "POST"; body = some body }))

  -- `DELETE /api/keys/[id]`
  unfoldable pub delete_key : Session → String → remote.State → Outcome × remote.State
  unfolding keys_proxy
  delete_key session id = with_user session (
      forward session ("/api/keys/" <> encode_uri_component id)
        (record { method = some "DELETE"; body = none }))
