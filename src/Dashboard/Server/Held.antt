-- ===== src/Dashboard/Server/Held.antt =====
-- How the ids that the dashboard holds change, and the keys on their way.
use go_mcp_server.Base.{
  String, List, [], ◌∷◌, ◌++◌, ℕ, Bool, true, false, Option, none, some, ◌≡◌, refl,
}
use go_mcp_server.Base.{arith, contains, ◌||◌, eq_iff, ◌⊎◌, inl, inr}
use go_mcp_server.Dashboard.{
  State, Summary, Created, Event, Reply, Data, response, rejected, object,
}
use go_mcp_server.Dashboard.{
  not_json, null_data, step, summary_of, other_than, post_ends, delete_ends,
}
use go_mcp_server.Dashboard.{
  initial, begin_create, begin_delete, end_create, end_delete, create_answered,
}
use go_mcp_server.Dashboard.{delete_answered}
use go_mcp_server.Dashboard.Ids.{ids, contains-keep, keeps_list}
use go_mcp_server.Dashboard.Server.View.{after_post, after_delete, is_id, held, ids-append}

-- What the user's events do to the ids that are held.
pub IsUserStep : State → State → Type 0
IsUserStep s s' =
    ((s'.deletes ≡ s.deletes)
      ⊎ ((k : Summary) × (s.pending_delete ≡ some k) × (s'.deletes ≡ s.deletes ++ k ∷ [])))
    × ((s'.pending_delete ≡ s.pending_delete)
        ⊎ (s'.pending_delete ≡ none)
        ⊎ ((k : Summary) × (s'.pending_delete ≡ some k) × (contains (ids s.keys) k.id ≡ true)))

pub lists-ids :
    (keys : List Summary) (k : Summary)
    → go_mcp_server.Dashboard.lists keys k ≡ true
    → contains (ids keys) k.id ≡ true
lists-ids [] k h = cc
lists-ids (j ∷ keys) k h = ground (arith, lists-ids keys k)

pub step-IsUserStep :
    (max : ℕ) (s : State) (e : Event) (s' : State)
    → keeps_list e ≡ true
    → step max s e ≡ some s'
    → IsUserStep s s'
unfolding step begin_create begin_delete IsUserStep
step-IsUserStep max s (Event.press_revoke k) s' u h = ground (arith, lists-ids s.keys k)
step-IsUserStep max s e s' u h = ground arith

pub user-held_deletes :
    (s s' : State) (x : String)
    → IsUserStep s s'
    → contains (ids s'.deletes) x ≡ true
    → (is_id s.pending_delete x || contains (ids s.deletes) x) ≡ true
unfolding IsUserStep
user-held_deletes s s' x (inl same, _) h = ground arith
user-held_deletes s s' x (inr (k, asked, more), _) h =
    ground (arith, ids-append s.deletes (k ∷ []) x)

pub user-held_pending :
    (s s' : State) (x : String)
    → IsUserStep s s'
    → is_id s'.pending_delete x ≡ true
    → (is_id s.pending_delete x || contains (ids s.keys) x) ≡ true
unfolding IsUserStep
user-held_pending s s' x (_, inl same) h = ground arith
user-held_pending s s' x (_, inr (inl gone)) h = ground arith
user-held_pending s s' x (_, inr (inr (k, asked, listed))) h = ground (arith, eq_iff k.id x)

pub user-held :
    (s s' : State) (x : String)
    → s'.keys ≡ s.keys
    → IsUserStep s s'
    → held s' x ≡ true
    → held s x ≡ true
user-held s s' x same u h = ground (arith, user-held_deletes s s' x u, user-held_pending s s' x u)

-- The key on its way is new to the dashboard.
abbrev pub IsApart : Option Created → List String → State → Type 0
IsApart none used ui = Unit
IsApart (some c) used ui = (held ui c.id ≡ false) × (contains used c.id ≡ true)

-- An answer that a key is gone belongs to an awaited DELETE.
abbrev pub IsAwaited : Bool → List Summary → Type 0
IsAwaited false deletes = Unit
IsAwaited true [] = false ≡ true
IsAwaited true (k ∷ deletes) = Unit

pub IsApart-user :
    (o : Option Created) (used : List String) (s s' : State)
    → s'.keys ≡ s.keys
    → IsUserStep s s'
    → IsApart o used s
    → IsApart o used s'
IsApart-user none used s s' same u h = tt
IsApart-user (some c) used s s' same u (apart, known) =
    (ground (arith, user-held s s' c.id same u), known)

pub after_delete-append :
    (b : Bool) (deletes more keys : List Summary)
    → IsAwaited b deletes
    → (after_delete b (deletes ++ more) keys ≡ after_delete b deletes keys)
      × IsAwaited b (deletes ++ more)
after_delete-append false deletes more keys h = (refl, tt)
after_delete-append true [] more keys h = cc
after_delete-append true (k ∷ deletes) more keys h = (refl, tt)

pub after_delete-user :
    (b : Bool) (s s' : State) (keys : List Summary)
    → IsUserStep s s'
    → IsAwaited b s.deletes
    → (after_delete b s'.deletes keys ≡ after_delete b s.deletes keys) × IsAwaited b s'.deletes
unfolding IsUserStep
after_delete-user b s s' keys (inl same, _) h = rw same (refl, h)
after_delete-user b s s' keys (inr (k, asked, more), _) h =
    rw more (after_delete-append b s.deletes (k ∷ []) keys h)

pub after_delete-cons :
    (b : Bool) (deletes keys : List Summary) (c : Created)
    → contains (ids deletes) c.id ≡ false
    → after_delete b deletes (summary_of c ∷ keys) ≡ summary_of c ∷ after_delete b deletes keys
after_delete-cons false deletes keys c h = refl
after_delete-cons true [] keys c h = refl
after_delete-cons true (k ∷ deletes) keys c h = ground (arith, eq_iff k.id c.id, eq_iff c.id k.id)

pub wider :
    (used : List String) (id x : String) → contains used x ≡ true → contains (id ∷ used) x ≡ true
wider used id x h = ground arith

pub held-new :
    (used : List String) (ui : State) (id : String)
    → ((x : String) → held ui x ≡ true → contains used x ≡ true)
    → contains used id ≡ false
    → held ui id ≡ false
held-new used ui id known fresh = ground (arith, known id)

pub held-deletes :
    (ui : State) (id : String) → held ui id ≡ false → contains (ids ui.deletes) id ≡ false
held-deletes ui id h = ground arith

pub grown-known :
    (o : Option Created) (used : List String) (s s' : State)
    → IsApart o used s
    → ((x : String) → held s x ≡ true → contains used x ≡ true)
    → s'.keys ≡ after_post o s.keys
    → s'.pending_delete ≡ s.pending_delete
    → s'.deletes ≡ s.deletes
    → (x : String) → held s' x ≡ true
    → contains used x ≡ true
grown-known none used s s' apart known keys pending deletes x h = ground (arith, known x)
grown-known (some c) used s s' apart known keys pending deletes x h =
    ground (arith, known x, eq_iff c.id x)

pub shrunk-held :
    (b : Bool) (k : Summary) (rest : List Summary) (s s' : State)
    → s.deletes ≡ k ∷ rest
    → s'.keys ≡ after_delete b (k ∷ []) s.keys
    → (s'.pending_delete ≡ s.pending_delete) ⊎ (s'.pending_delete ≡ none)
    → s'.deletes ≡ rest
    → (x : String) → held s' x ≡ true
    → held s x ≡ true
shrunk-held b k rest s s' awaited keys pending deletes x h =
    ground (arith, contains-keep k.id s.keys x)

pub IsApart-shrunk :
    (o : Option Created) (used : List String) (s s' : State)
    → ((x : String) → held s' x ≡ true → held s x ≡ true)
    → IsApart o used s
    → IsApart o used s'
IsApart-shrunk none used s s' fewer apart = tt
IsApart-shrunk (some c) used s s' fewer (apart, known) = (ground (arith, fewer c.id), known)

pub after_delete-after_post :
    (b : Bool) (o : Option Created) (used : List String) (k : Summary) (rest : List Summary)
    (s : State)
    → s.deletes ≡ k ∷ rest
    → IsApart o used s
    → after_delete b (k ∷ rest) (after_post o s.keys)
      ≡ after_post o (after_delete b (k ∷ []) s.keys)
after_delete-after_post false o used k rest s awaited apart = refl
after_delete-after_post true none used k rest s awaited apart = refl
after_delete-after_post true (some c) used k rest s awaited (apart, known) =
    after_delete-cons true (k ∷ rest) s.keys c (rw awaited at (held-deletes s c.id apart))
