-- ===== src/Dashboard/Server.antt =====
-- The dashboard and the server together. Of the server (internal/keysapi/keys.go) only the rows of
-- the one user are kept, newest first, as they are listed. A request that the dashboard sent is
-- handled or lost, and its answer comes in later; in between the user goes on, and the server may
-- handle the other request.
pub mod View
pub mod Held
pub mod Agreement
pub mod Steady
pub mod Settling
pub mod Turns
use go_mcp_server.Base.{String, ◌<>◌, List, [], ◌∷◌, ℕ, Bool, true, false, Option, none, some, ◌≡◌}
use go_mcp_server.Base.{leb, length, keep, contains, if◌then◌else◌}
use go_mcp_server.Json.{decimal}
use go_mcp_server.Dashboard.{
  State, Summary, Created, Event, Reply, response, rejected, object, step,
}
use go_mcp_server.Dashboard.{summary_of, other_than, post_ends, delete_ends}
use go_mcp_server.Dashboard.Ids.{ids, keeps_list}

-- `Store.Create` and `Handler.Create`, for the row that the database would insert.
unfoldable pub server_create : ℕ → List Summary → Created → Reply × List Summary
server_create max rows c =
    if leb max (length rows)
    then (
      response false (object (some ("you can have at most " <> (decimal max <> " API keys"))) none),
      rows,
    )
    else (response true (object none (some c)), summary_of c ∷ rows)

-- `Store.Delete` and `Handler.Delete`.
unfoldable pub server_delete : List Summary → String → Reply × List Summary
server_delete rows id =
    if contains (ids rows) id
    then (response true (object none none), keep (other_than id) rows)
    else (response false (object (some "key not found") none), rows)

pub record System : Type 0 where
  pub ui : State
  -- the user's rows, and every id that a row ever had
  pub rows : List Summary
  pub used : List String
  -- the answers under way
  pub post_answer : Option Reply
  pub delete_answer : Option Reply

module _ (max : ℕ) where
  pub data Move : System → System → Type 0 where
    -- the user does something
    user :
        (s : System) (e : Event) (ui : State)
        → keeps_list e ≡ true
        → step max s.ui e ≡ some ui
        → Move s (record s { ui = ui })
    -- the server handles the awaited POST; the database gives the row an id that is new
    handle_post :
        (s : System) (body : String) (c : Created)
        → s.ui.posts ≡ body ∷ []
        → s.post_answer ≡ none
        → contains s.used c.id ≡ false
        → Move s (record s {
          rows = (server_create max s.rows c).1;
          used = c.id ∷ s.used;
          post_answer = some (server_create max s.rows c).0;
        })
    -- the server handles the awaited DELETE
    handle_delete :
        (s : System) (k : Summary)
        → s.ui.deletes ≡ k ∷ []
        → s.delete_answer ≡ none
        → Move s (record s {
          rows = (server_delete s.rows k.id).1;
          delete_answer = some (server_delete s.rows k.id).0;
        })
    -- a request does not reach the server
    lose_post :
        (s : System) (body : String)
        → s.ui.posts ≡ body ∷ []
        → s.post_answer ≡ none
        → Move s (record s { post_answer = some rejected })
    lose_delete :
        (s : System) (k : Summary)
        → s.ui.deletes ≡ k ∷ []
        → s.delete_answer ≡ none
        → Move s (record s { delete_answer = some rejected })
    -- an answer comes in
    post_arrives :
        (s : System) (reply : Reply) (ui : State)
        → s.post_answer ≡ some reply
        → step max s.ui (post_ends reply) ≡ some ui
        → Move s (record s { ui = ui; post_answer = none })
    delete_arrives :
        (s : System) (reply : Reply) (ui : State)
        → s.delete_answer ≡ some reply
        → step max s.ui (delete_ends reply) ≡ some ui
        → Move s (record s { ui = ui; delete_answer = none })

  pub data Reach (start : System) : System → Type 0 where
    here : Reach start start
    next : {s t : System} → Reach start s → Move s t → Reach start t
