-- ===== src/Dashboard/Server/Settling.antt =====
-- The dashboard and the server come to rest: what is awaited can always be answered.
use go_mcp_server.Base.{[], ℕ, none, ◌≡◌}
use go_mcp_server.Dashboard.Server.{System, Reach}

-- The POST, or the DELETE, is answered, and the other request is as it was.
abbrev HasPosted : (max : ℕ) (start s : System) → Type 0
HasPosted max start s =
    (t : System) × Reach max start t × (t.ui.posts ≡ []) × (t.post_answer ≡ none)

abbrev HasDeleted : (max : ℕ) (start s : System) → Type 0
HasDeleted max start s =
    (t : System) × Reach max start t
    × (t.ui.posts ≡ s.ui.posts)
    × (t.post_answer ≡ s.post_answer)
    × (t.ui.deletes ≡ [])
    × (t.delete_answer ≡ none)
