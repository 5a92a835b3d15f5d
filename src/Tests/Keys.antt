-- ===== src/Tests/Keys.antt =====
-- Tests of the key API's handlers and of their gate, and their theorems at concrete inputs.
use Prim.Native.String.{[], ◌∷◌}
use go_mcp_server.Base.{
  String, ◌<>◌, List, code, Option, none, some, ℕ, suc, ap, Bool, true, false, ◌≡◌, refl,
}
use go_mcp_server.Base.{◌↔◌, ◌||◌, ◌&&◌, nat_eq, ◌==◌, begins_with, lookup, arith, inl, inr}
use go_mcp_server.Base.{all_chars, not, eq_iff, Bool-cases}
use text.Mathlib.TextLemmas.{cons-append}
use go_mcp_server.Uri.{encode_uri_component, is_unreserved, escape, utf8, hex_digit}
use go_mcp_server.Uri.Laws.{is_segment_char, decode, plain, bytes, decode-encode_uri_component}
use go_mcp_server.Uri.Laws.{encode_uri_component-segment}
use go_mcp_server.Keys.{FetchRequest, Response, Remote, Session, returned}
use go_mcp_server.Keys.{truthy}
use go_mcp_server.Keys.Laws.{get, post, delete, handle, recorder, bearer, IsRequest, request_of}
use go_mcp_server.Keys.Laws.{is_relayable, relayed, handle-IsRequest}
use go_mcp_server.Keys.Laws.{handle-token_only, handle-relayed}
use go_mcp_server.Keys.Gate.{IsRouteMatcher, IsProtect, serve, serve-signed_out, runs_on}
use go_mcp_server.Base.{if◌then◌else◌}
use go_mcp_server.Keys.Listing.{Listing, dashboard, keys_page}
use go_mcp_server.Keys.Listing.Laws.{IsListing, answer_to, keys_page-dashboard_iff}

abbrev local : String
local = "http://localhost:8080"

abbrev nobody : Session
nobody = record { user_id = none; token = none }

abbrev ann : Session
ann = record { user_id = some "user_1"; token = some "t0" }

abbrev anne : Session
anne = record { user_id = some "user_2"; token = some "t0" }

abbrev list_answer : Response
list_answer = record { status = 200; headers = List.[]; body = "{\"keys\":[],\"max\":5}" }

abbrev answer : FetchRequest → Option Response
answer req = some list_answer

abbrev server : Remote
server = recorder answer

encoded : encode_uri_component "a b/é" ≡ "a%20b%2F%C3%A9"
unfolding encode_uri_component is_unreserved escape utf8 hex_digit
encoded = refl

gate_runs : runs_on "/doc/keys" && runs_on "/api/keys/x.css" && not (runs_on "/logo.svg") ≡ true
unfolding runs_on
gate_runs = refl

decode-encode_uri_component_example :
    decode plain (encode_uri_component "a b/é") ≡ some (bytes "a b/é")
decode-encode_uri_component_example = decode-encode_uri_component "a b/é"

encode_uri_component-segment_example :
    all_chars is_segment_char (encode_uri_component "a b/é") ≡ true
encode_uri_component-segment_example = encode_uri_component-segment "a b/é"

handle-IsRequest_example :
    (req : FetchRequest) × ((handle (recorder answer) local ann (delete "a/b") List.[]).1
      ≡ List.◌∷◌ req List.[])
    × IsRequest local (delete "a/b") req
    × (lookup "Authorization" req.headers ≡ bearer ann.token)
handle-IsRequest_example = handle-IsRequest answer local ann (delete "a/b") List.[] refl

handle-token_only_example :
    handle server local ann (post "{}") List.[] ≡ handle server local anne (post "{}") List.[]
handle-token_only_example =
    handle-token_only server local ann anne (post "{}") List.[] refl refl refl

handle-relayed_example :
    (handle server local ann get List.[]).0 ≡ returned (relayed list_answer) ↔ (
      (res : Response) × ((server.fetch List.[] (request_of local ann get)).0 ≡ some res)
      × (is_relayable res.status ≡ true)
      × (relayed list_answer ≡ relayed res))
handle-relayed_example = handle-relayed server local ann get List.[] (relayed list_answer) refl

-- A matcher of patterns that end in `(.*)`.
abbrev glob : String → String → Bool
glob [] path = false
glob (p ∷ pattern) [] = p ∷ pattern == "(.*)"
glob (p ∷ pattern) (c ∷ path) =
    p ∷ pattern == "(.*)" || (nat_eq (code p) (code c) && glob pattern path)

abbrev route_matcher : List String → String → Bool
route_matcher List.[] path = false
route_matcher (List.◌∷◌ p patterns) path = glob p path || route_matcher patterns path

glob-start :
    (start path : String) → begins_with path start ≡ true → glob (start <> "(.*)") path ≡ true
glob-start [] [] h = refl
glob-start [] (c ∷ path) h = refl
glob-start (d ∷ start) [] h = cc
glob-start (d ∷ start) (c ∷ path) h =
    let rest = glob-start start path in rw cons-append (ground (arith, rest))

route_matcher-IsRouteMatcher : IsRouteMatcher route_matcher
route_matcher-IsRouteMatcher List.[] start path h k = cc
route_matcher-IsRouteMatcher (List.◌∷◌ p patterns) start path h k =
    elim (Bool-cases (p == start <> "(.*)")) [
      | inl same ↦ rw (ap (λ q. glob q path) ((eq_iff p _).0 same), glob-start start path k) refl
      | inr other ↦
          let later = route_matcher-IsRouteMatcher patterns start path (rw other at h) k in
          ground (arith, later)
    ]

truthy-IsProtect : IsProtect (λ session. truthy session.user_id)
truthy-IsProtect session h = h

serve-signed_out_example :
    serve route_matcher
      (λ session. truthy session.user_id)
      nobody
      "/api/keys/k1"
      (λ (n : ℕ). (n, suc n))
      0
    ≡ (none, 0)
serve-signed_out_example =
    serve-signed_out route_matcher (λ session. truthy session.user_id) nobody "/api/keys/k1"
      (λ (n : ℕ). (n, suc n)) 0 route_matcher-IsRouteMatcher truthy-IsProtect refl (inr refl)

-- A reader of one body.
abbrev read_json : String → Option Listing
read_json body =
    if body == list_answer.body then some (record { keys = List.[]; max = 5 }) else none

keys_page-dashboard_iff_example :
    (keys_page read_json server local ann List.[]).0
      ≡ dashboard (record { keys = List.[]; max = 5 })
    ↔ IsListing read_json (answer_to server local ann List.[]) (record { keys = List.[]; max = 5 })
keys_page-dashboard_iff_example =
    keys_page-dashboard_iff read_json server local ann List.[] (record { keys = List.[]; max = 5 })
      refl
