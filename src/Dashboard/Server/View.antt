-- ===== src/Dashboard/Server/View.antt =====
-- What the answers under way will make of the dashboard's list, and the ids that it holds.
use go_mcp_server.Base.{
  String, List, [], ◌∷◌, ◌++◌, Bool, true, false, Option, none, some, ◌≡◌, refl,
}
use go_mcp_server.Base.{arith, contains, keep, ◌||◌, ◌==◌, ◌⊎◌, inl, inr}
use go_mcp_server.Dashboard.{State, Summary, Created, Reply, response, rejected, object}
use go_mcp_server.Dashboard.{not_json, null_data, summary_of, other_than, post_ends}
use go_mcp_server.Dashboard.{end_create, end_delete, create_answered}
use go_mcp_server.Dashboard.{delete_answered}
use go_mcp_server.Dashboard.Ids.{ids, created}
use go_mcp_server.Dashboard.Server.{System}

-- The key that an answer under way brings, and whether one under way says that a key is gone.
abbrev pub brought : Option Reply → Option Created
brought none = none
brought (some reply) = created (post_ends reply)

abbrev pub is_success : Reply → Bool
is_success (response true d) = true
is_success reply = false

abbrev pub confirmed : Option Reply → Bool
confirmed none = false
confirmed (some reply) = is_success reply

abbrev pub after_post : Option Created → List Summary → List Summary
after_post none keys = keys
after_post (some c) keys = summary_of c ∷ keys

abbrev pub after_delete : Bool → List Summary → List Summary → List Summary
after_delete false deletes keys = keys
after_delete true [] keys = keys
after_delete true (k ∷ deletes) keys = keep (other_than k.id) keys

-- The dashboard's list once the answers under way are in.
abbrev pub view : System → List Summary
view s =
    after_delete (confirmed s.delete_answer) s.ui.deletes
      (after_post (brought s.post_answer) s.ui.keys)

abbrev pub is_id : Option Summary → String → Bool
is_id none x = false
is_id (some k) x = k.id == x

-- The dashboard holds the id: in its list, in its confirmation, or in an awaited DELETE.
abbrev pub held : State → String → Bool
held ui x = contains (ids ui.keys) x || is_id ui.pending_delete x || contains (ids ui.deletes) x

pub ids-append :
    (keys more : List Summary) (x : String)
    → contains (ids (keys ++ more)) x ≡ (contains (ids keys) x || contains (ids more) x)
ids-append [] more x = refl
ids-append (k ∷ keys) more x = ground (arith, ids-append keys more x)

pub end_create-view :
    (reply : Reply) (s : State)
    → ((end_create reply s).keys ≡ after_post (created (post_ends reply)) s.keys)
      × ((end_create reply s).pending_delete ≡ s.pending_delete)
      × ((end_create reply s).deletes ≡ s.deletes)
unfolding end_create create_answered
end_create-view rejected s = (refl, refl, refl)
end_create-view (response true not_json) s = (refl, refl, refl)
end_create-view (response false not_json) s = (refl, refl, refl)
end_create-view (response true null_data) s = (refl, refl, refl)
end_create-view (response false null_data) s = (refl, refl, refl)
end_create-view (response false (object e k)) s = (refl, refl, refl)
end_create-view (response true (object e none)) s = (refl, refl, refl)
end_create-view (response true (object e (some c))) s = (refl, refl, refl)

pub end_delete-view :
    (k : Summary) (reply : Reply) (s : State)
    → ((end_delete k reply s).keys ≡ after_delete (is_success reply) (k ∷ []) s.keys)
      × (((end_delete k reply s).pending_delete ≡ s.pending_delete)
          ⊎ ((end_delete k reply s).pending_delete ≡ none))
      × ((end_delete k reply s).deletes ≡ s.deletes)
unfolding end_delete delete_answered
end_delete-view k rejected s = (refl, inl refl, refl)
end_delete-view k (response true d) s = (refl, inr refl, refl)
end_delete-view k (response false not_json) s = (refl, inl refl, refl)
end_delete-view k (response false null_data) s = (refl, inl refl, refl)
end_delete-view k (response false (object e c)) s = (refl, inl refl, refl)
