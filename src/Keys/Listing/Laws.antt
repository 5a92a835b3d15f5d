-- ===== src/Keys/Listing/Laws.antt =====
-- When the dashboard is shown, and with which keys.
use go_mcp_server.Base.{String, Option, none, some, true, ◌≡◌, ◌↔◌, refl, arith}
use go_mcp_server.Base.{Bool-cases, Option-cases, inl, inr}
use go_mcp_server.Keys.{Response, Remote, Session, truthy, keys_proxy}
use go_mcp_server.Keys.Listing.{Listing, dashboard, is_ok, loaded, rendered, keys_page}
use go_mcp_server.Keys.Listing.{list_keys}

-- The request that the page sends.
abbrev pub answer_to : (remote : Remote) → String → Session → remote.State → Option Response
answer_to remote base session st =
    (remote.fetch st
      (keys_proxy base session "/api/keys" (record { method = none; body = none }))).0

-- An answer with the keys: a status from 200 to 299, and a body that reads as the listing.
abbrev pub IsListing : (String → Option Listing) → Option Response → Listing → Type 0
IsListing read_json answer listing =
    (res : Response) × (answer ≡ some res)
    × (is_ok res.status ≡ true)
    × (read_json res.body ≡ some listing)

loaded-dashboard :
    (read_json : String → Option Listing) (answer : Option Response) (listing : Listing)
    → rendered (loaded read_json answer) ≡ dashboard listing
    → IsListing read_json answer listing
loaded-dashboard read_json none listing e = cc
loaded-dashboard read_json (some res) listing e = elim (Bool-cases (is_ok res.status)) [
  | inl ok ↦ elim (Option-cases (read_json res.body)) [
    | inl bad ↦ absurd (ground arith)
    | inr (other, read) ↦ (res, refl, ok, ground arith)
  ]
  | inr refused ↦ absurd (ground arith)
]

dashboard-loaded :
    (read_json : String → Option Listing) (answer : Option Response) (listing : Listing)
    → IsListing read_json answer listing
    → rendered (loaded read_json answer) ≡ dashboard listing
dashboard-loaded read_json answer listing (res, sent, ok, read) = rw (sent, ok, read) refl

-- With a user, the dashboard is shown exactly where the server answered with a status from 200 to
-- 299 and a body that reads as a listing, and it opens with the keys and the cap of that listing: a
-- refusal or an unreadable answer is never shown as a user without keys.
pub keys_page-dashboard_iff :
    (read_json : String → Option Listing) (remote : Remote) (base : String) (session : Session)
    (st : remote.State) (listing : Listing)
    → truthy session.user_id ≡ true
    → (keys_page read_json remote base session st).0 ≡ dashboard listing
      ↔ IsListing read_json (answer_to remote base session st) listing
unfolding keys_page list_keys
keys_page-dashboard_iff read_json remote base session st listing h =
    rw (keys_page, h)
      (
        loaded-dashboard read_json (answer_to remote base session st) listing,
        dashboard-loaded read_json (answer_to remote base session st) listing,
      )
