-- ===== src/Keys/Listing.antt =====
-- `listKeys` of frontend/src/lib/api-keys.ts, and the page of the dashboard that awaits it:
-- frontend/src/app/doc/keys/page.tsx. What `res.json()` makes of a body is an argument: a listing,
-- or `none` where the promise is rejected.
pub mod Laws
use go_mcp_server.Base.{
  String, ◌<>◌, List, Option, none, some, ℕ, Bool, true, false, ◌&&◌, leb, if◌then◌else◌,
}
use go_mcp_server.Json.{decimal}
use go_mcp_server.Dashboard.{Summary}
use go_mcp_server.Keys.{Response, Remote, Session, keys_proxy, truthy}

pub record Listing : Type 0 where
  pub keys : List Summary
  pub max : ℕ

-- How `listKeys` ends, and what the page is rendered as.
pub data Loaded : Type 0 where
  listed : Listing → Loaded
  -- the message of the error that is thrown
  failed : String → Loaded
  -- `fetch` or `res.json()` was rejected
  rejected : Loaded

pub data PageOutcome : Type 0 where
  redirected : String → PageOutcome
  dashboard : Listing → PageOutcome
  -- the page throws, and the error boundary is shown
  threw : Loaded → PageOutcome

-- `res.ok`
abbrev pub is_ok : ℕ → Bool
is_ok status = leb 200 status && leb status 299

abbrev pub read_body : Option Listing → Loaded
read_body none = rejected
read_body (some listing) = listed listing

-- The rest of `listKeys`, of the outcome of its `fetch`.
abbrev pub loaded : (String → Option Listing) → Option Response → Loaded
loaded read_json none = rejected
loaded read_json (some res) =
    if is_ok res.status
    then read_body (read_json res.body)
    else failed ("Failed to load API keys (" <> (decimal res.status <> ")"))

abbrev pub rendered : Loaded → PageOutcome
rendered (listed listing) = dashboard listing
rendered (failed message) = threw (failed message)
rendered rejected = threw rejected

module _ (read_json : String → Option Listing) (remote : Remote) (base : String) where
  -- `listKeys()`
  unfoldable pub list_keys : Session → remote.State → Loaded × remote.State
  unfolding keys_proxy
  list_keys session st =
      let (res, st') =
        remote.fetch st
          (keys_proxy base session "/api/keys" (record { method = none; body = none })) in
      (loaded read_json res, st')

  -- `KeysPage()`
  unfoldable pub keys_page : Session → remote.State → PageOutcome × remote.State
  unfolding list_keys
  keys_page session st = elim (truthy session.user_id) [
    | false ↦ (redirected "/sign-in", st)
    | true ↦ let (result, st') = list_keys session st in (rendered result, st')
  ]
