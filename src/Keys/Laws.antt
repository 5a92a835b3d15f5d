-- ===== src/Keys/Laws.antt =====
-- What the key API's handlers send and answer. `Call` is a request to one of the three handlers,
-- after Next's routing.
use go_mcp_server.Base.{String, ◌<>◌, List, [], ◌∷◌, Option, none, some, ℕ, Bool, true, false, not}
use go_mcp_server.Base.{◌≡◌, refl, ◌||◌, ◌&&◌, ltb, Bool-cases, inl, inr, arith, lookup}
use go_mcp_server.Base.{all_chars, is_empty, if◌then◌else◌, ◌↔◌, ◌≢◌}
use go_mcp_server.Uri.{encode_uri_component}
use go_mcp_server.Uri.Laws.{is_segment_char, decode, plain, bytes, decode-encode_uri_component}
use go_mcp_server.Uri.Laws.{encode_uri_component-segment}
use go_mcp_server.Keys.{FetchRequest, Response, Remote, Session, truthy, Outcome, returned}
use go_mcp_server.Keys.{
  unauthorized, authorization, keys_proxy, get_keys, post_keys, delete_key, json_type,
}
use go_mcp_server.Keys.{null_body_status, relay}

pub data Call : Type 0 where
  get : Call
  post : (body : String) → Call
  delete : (id : String) → Call

abbrev pub handle :
    (remote : Remote) → String → Session → Call → remote.State → Outcome × remote.State
handle remote base session get = get_keys remote base session
handle remote base session (post body) = post_keys remote base session body
handle remote base session (delete id) = delete_key remote base session id

-- Without a user, each of the three handlers answers 401 and sends no request.
pub handle-unauthorized :
    (remote : Remote) (base : String) (session : Session) (call : Call) (st : remote.State)
    → truthy session.user_id ≡ false
    → handle remote base session call st ≡ (returned unauthorized, st)
unfolding get_keys post_keys delete_key
handle-unauthorized remote base session get st h = rw h refl
handle-unauthorized remote base session (post body) st h = rw h refl
handle-unauthorized remote base session (delete id) st h = rw h refl

-- The remote side that records the requests, the last one first.
abbrev pub recorder : (FetchRequest → Option Response) → Remote
recorder answer = record { State = List FetchRequest; fetch = λ log req. (answer req, req ∷ log) }

-- The credential that a token stands for.
abbrev pub bearer : Option String → Option String
bearer none = none
bearer (some t) = if is_empty t then none else some ("Bearer " <> t)

-- What the request of a call is, to the server.
abbrev pub IsRequest : String → Call → FetchRequest → Type 0
IsRequest base get req = (req.method ≡ "GET") × (req.url ≡ base <> "/api/keys") × (req.body ≡ none)
IsRequest base (post body) req =
    (req.method ≡ "POST") × (req.url ≡ base <> "/api/keys") × (req.body ≡ some body)
IsRequest base (delete id) req =
    (req.method ≡ "DELETE")
    × (req.body ≡ none)
    × ((segment : String) × (req.url ≡ base <> "/api/keys/" <> segment)
        × (all_chars is_segment_char segment ≡ true)
        × (decode plain segment ≡ some (bytes id)))

pub authorization-lookup :
    (token : Option String) → lookup "Authorization" (authorization token) ≡ bearer token
authorization-lookup none = refl
authorization-lookup (some t) = elim (Bool-cases (is_empty t)) [
  | inl empty ↦ rw empty refl
  | inr full ↦ rw full refl
]

-- The request of a call, as the handlers build it.
pub request_of : String → Session → Call → FetchRequest
request_of base session get =
    keys_proxy base session "/api/keys" (record { method = none; body = none })
request_of base session (post body) =
    keys_proxy base session "/api/keys" (record { method = some "POST"; body = some body })
request_of base session (delete id) =
    keys_proxy base session ("/api/keys/" <> encode_uri_component id)
      (record { method = some "DELETE"; body = none })

-- With a user, each call sends exactly one request: the method, the path and the body are the
-- call's, the id of a DELETE is one path segment that decodes to the id's bytes, and the session's
-- token is the Authorization header, which is absent where there is no token.
pub handle-IsRequest :
    (answer : FetchRequest → Option Response) (base : String) (session : Session) (call : Call)
    (log : List FetchRequest)
    → truthy session.user_id ≡ true
    → (req : FetchRequest) × ((handle (recorder answer) base session call log).1 ≡ req ∷ log)
      × IsRequest base call req
      × (lookup "Authorization" req.headers ≡ bearer session.token)
unfolding get_keys post_keys delete_key keys_proxy request_of
handle-IsRequest answer base session get log h =
    (request_of base session get, rw h refl, (refl, refl, refl), authorization-lookup session.token)
handle-IsRequest answer base session (post body) log h = (
  request_of base session (post body),
  rw h refl,
  (refl, refl, refl),
  authorization-lookup session.token,
)
handle-IsRequest answer base session (delete id) log h = (
  request_of base session (delete id),
  rw h refl,
  (
    refl,
    refl,
    (
      encode_uri_component id,
      refl,
      encode_uri_component-segment id,
      decode-encode_uri_component id,
    ),
  ),
  authorization-lookup session.token,
)

-- The user id never reaches the server: two sessions with a user each and the same token have the
-- same effect and the same answer.
pub handle-token_only :
    (remote : Remote) (base : String) (one two : Session) (call : Call) (st : remote.State)
    → truthy one.user_id ≡ true
    → truthy two.user_id ≡ true
    → one.token ≡ two.token
    → handle remote base one call st ≡ handle remote base two call st
unfolding get_keys post_keys delete_key keys_proxy
handle-token_only remote base one two get st h k e = rw (h, k, e) refl
handle-token_only remote base one two (post body) st h k e = rw (h, k, e) refl
handle-token_only remote base one two (delete id) st h k e = rw (h, k, e) refl

-- The statuses that `new Response` takes with a body.
abbrev pub is_relayable : ℕ → Bool
is_relayable status = not (ltb status 200 || ltb 599 status) && not (null_body_status status)

abbrev pub relayed : Response → Response
relayed res = record { status = res.status; headers = json_type ∷ []; body = res.body }

relay-relayable :
    (res : Response) → is_relayable res.status ≡ true → relay (some res) ≡ returned (relayed res)
relay-relayable res h = ground arith

relay-refused :
    (res : Response) (r : Response)
    → is_relayable res.status ≡ false
    → relay (some res) ≢ returned r
relay-refused res r h = ground arith

handle-forward :
    (remote : Remote) (base : String) (session : Session) (call : Call) (st : remote.State)
    → truthy session.user_id ≡ true
    → handle remote base session call st ≡ (
      relay (remote.fetch st (request_of base session call)).0,
      (remote.fetch st (request_of base session call)).1,
    )
unfolding get_keys post_keys delete_key keys_proxy request_of
handle-forward remote base session get st h = rw h refl
handle-forward remote base session (post body) st h = rw h refl
handle-forward remote base session (delete id) st h = rw h refl

relay-returned :
    (answer : Option Response) (r : Response)
    → relay answer ≡ returned r
    → (res : Response) × (answer ≡ some res) × (is_relayable res.status ≡ true) × (r ≡ relayed res)
relay-returned none r e = cc
relay-returned (some res) r e = elim (Bool-cases (is_relayable res.status)) [
  | inl ok ↦ (res, refl, ok, cc (e, relay-relayable res ok))
  | inr bad ↦ absurd (relay-refused res r bad e)
]

-- With a user, a handler's promise is kept with a response exactly where the server answered with a
-- status that a response with a body can carry: 200 to 599, but for 204, 205 and 304. The response
-- has the server's status and body, and says that it is JSON. In every other case it is rejected.
pub handle-relayed :
    (remote : Remote) (base : String) (session : Session) (call : Call) (st : remote.State)
    (r : Response)
    → truthy session.user_id ≡ true
    → (handle remote base session call st).0 ≡ returned r ↔ (
        (res : Response) × ((remote.fetch st (request_of base session call)).0 ≡ some res)
        × (is_relayable res.status ≡ true)
        × (r ≡ relayed res))
handle-relayed remote base session call st r h =
    rw (handle-forward remote base session call st h)
      (relay-returned _ r, λ (res, sent, ok, same). rw (sent, same) (relay-relayable res ok))
