-- ===== src/Dashboard/Server/Agreement.antt =====
-- The dashboard's list and the server's rows agree up to the answers that are under way.
use go_mcp_server.Base.{String, List, [], ◌∷◌, ℕ, true, false, none, some, ◌≡◌, refl}
use go_mcp_server.Base.{arith, sym, ap, ◌∙◌, subst, contains, keep, inl, inr}
use go_mcp_server.Base.{Bool-cases, leb, length}
use text.Mathlib.TextPositions.{eq_refl}
use go_mcp_server.Dashboard.{State, Summary, Created, Event, Reply}
use go_mcp_server.Dashboard.{step, summary_of, other_than, post_ends, delete_ends}
use go_mcp_server.Dashboard.{initial, end_create, end_delete}
use go_mcp_server.Dashboard.Runs.{post_ends-step, delete_ends-step}
use go_mcp_server.Dashboard.Ids.{ids, created, keeps_list, step-keeps_list}
use go_mcp_server.Dashboard.Server.{System, server_create, server_delete, Move, Reach, here, next}
use go_mcp_server.Dashboard.Server.View.{
  brought, is_success, confirmed, after_post, after_delete, view, held, end_create-view,
  end_delete-view,
}
use go_mcp_server.Dashboard.Server.Held.{
  step-IsUserStep, user-held, IsApart, IsAwaited, IsApart-user, after_delete-user,
  after_delete-cons, wider, held-new, held-deletes, grown-known, shrunk-held, IsApart-shrunk,
  after_delete-after_post,
}

abbrev IsAgreed : System → Type 0
IsAgreed s =
    (s.rows ≡ view s)
    × ((x : String) → held s.ui x ≡ true → contains s.used x ≡ true)
    × IsApart (brought s.post_answer) s.used s.ui
    × IsAwaited (confirmed s.delete_answer) s.ui.deletes

IsAgreed-user :
    (max : ℕ) (s : System) (e : Event) (ui : State)
    → keeps_list e ≡ true
    → step max s.ui e ≡ some ui
    → IsAgreed s
    → IsAgreed (record s { ui = ui })
IsAgreed-user max s e ui u h (rows, known, apart, awaited) =
    let same = step-keeps_list max s.ui e ui u h in
    let does = step-IsUserStep max s.ui e ui u h in
    let (deletes, awaited') =
      after_delete-user (confirmed s.delete_answer) s.ui ui
        (after_post (brought s.post_answer) s.ui.keys) does awaited in
    (
      rw same (rows ∙ sym deletes),
      λ x holds. known x (user-held s.ui ui x same does holds),
      IsApart-user (brought s.post_answer) s.used s.ui ui same does apart,
      awaited',
    )

IsAgreed-handle_post :
    (max : ℕ) (s : System) (c : Created)
    → s.post_answer ≡ none
    → contains s.used c.id ≡ false
    → IsAgreed s
    → IsAgreed (record s {
      rows = (server_create max s.rows c).1;
      used = c.id ∷ s.used;
      post_answer = some (server_create max s.rows c).0;
    })
unfolding server_create
IsAgreed-handle_post max s c quiet fresh (rows, known, apart, awaited) =
    let plain : s.rows ≡ after_delete (confirmed s.delete_answer) s.ui.deletes s.ui.keys =
      rw quiet at rows in
    let new = held-new s.used s.ui c.id known fresh in
    let known' = λ (x : String) (h : held s.ui x ≡ true). wider s.used c.id x (known x h) in
    elim (Bool-cases (leb max (length s.rows))) [
      | inl full ↦ rw full (plain, known', tt, awaited)
      | inr room ↦ rw room (
        ap (λ rows. summary_of c ∷ rows) plain
            ∙ sym (
                after_delete-cons (confirmed s.delete_answer) s.ui.deletes s.ui.keys c
                  (held-deletes s.ui c.id new)),
        known',
        (new, rw (eq_refl c.id) refl),
        awaited,
      )
    ]

IsAgreed-handle_delete :
    (s : System) (k : Summary)
    → s.ui.deletes ≡ k ∷ []
    → s.delete_answer ≡ none
    → IsAgreed s
    → IsAgreed (record s {
      rows = (server_delete s.rows k.id).1;
      delete_answer = some (server_delete s.rows k.id).0;
    })
unfolding server_delete
IsAgreed-handle_delete s k only quiet (rows, known, apart, awaited) =
    let keys = after_post (brought s.post_answer) s.ui.keys in
    let plain : s.rows ≡ keys = rw quiet at rows in
    elim (Bool-cases (contains (ids s.rows) k.id)) [
      | inl there ↦
          rw (there, only)
            (ap (λ rows. keep (other_than k.id) rows) plain, rw only at known, rw only at apart, tt)
      | inr absent ↦ rw absent (plain, known, apart, tt)
    ]

IsAgreed-post_arrives :
    (max : ℕ) (s : System) (reply : Reply) (ui : State)
    → s.post_answer ≡ some reply
    → step max s.ui (post_ends reply) ≡ some ui
    → IsAgreed s
    → IsAgreed (record s { ui = ui; post_answer = none })
IsAgreed-post_arrives max s reply ui answer h (rows, known, apart, awaited) =
    let (_, posts, _, ends) = post_ends-step max s.ui reply ui h in
    let (keys, pending, deletes) = end_create-view reply (record s.ui { posts = posts }) in
    subst (λ (u : State). IsAgreed (record s { ui = u; post_answer = none })) ends
      (
        rw (keys, deletes) (rw answer at rows),
        grown-known (created (post_ends reply)) s.used s.ui
            (end_create reply (record s.ui { posts = posts })) (rw answer at apart) known keys
            pending deletes,
        tt,
        rw deletes awaited,
      )

IsAgreed-delete_arrives :
    (max : ℕ) (s : System) (reply : Reply) (ui : State)
    → s.delete_answer ≡ some reply
    → step max s.ui (delete_ends reply) ≡ some ui
    → IsAgreed s
    → IsAgreed (record s { ui = ui; delete_answer = none })
IsAgreed-delete_arrives max s reply ui answer h (rows, known, apart, awaited) =
    let (k, rest, deletes, ends) = delete_ends-step max s.ui reply ui h in
    let (keys, pending, left) = end_delete-view k reply (record s.ui { deletes = rest }) in
    let fewer =
      shrunk-held (is_success reply) k rest s.ui
        (end_delete k reply (record s.ui { deletes = rest })) deletes keys pending left in
    let o = brought s.post_answer in
    subst (λ (u : State). IsAgreed (record s { ui = u; delete_answer = none })) ends
      (
        rw keys (
            (rw (answer, deletes) at rows)
            ∙ after_delete-after_post (is_success reply) o s.used k rest s.ui deletes apart),
        λ x holds. known x (fewer x holds),
        IsApart-shrunk o s.used s.ui (end_delete k reply (record s.ui { deletes = rest })) fewer
            apart,
        tt,
      )

Move-IsAgreed : (max : ℕ) {s t : System} → Move max s t → IsAgreed s → IsAgreed t
Move-IsAgreed max (Move.user s e ui keeps h) a = IsAgreed-user max s e ui keeps h a
Move-IsAgreed max (Move.handle_post s body c awaits quiet fresh) a =
    IsAgreed-handle_post max s c quiet fresh a
Move-IsAgreed max (Move.handle_delete s k awaits quiet) a =
    IsAgreed-handle_delete s k awaits quiet a
Move-IsAgreed max (Move.lose_post s body awaits quiet) (rows, known, apart, awaited) =
    (rw quiet at rows, known, tt, awaited)
Move-IsAgreed max (Move.lose_delete s k awaits quiet) (rows, known, apart, awaited) =
    (rw quiet at rows, known, apart, tt)
Move-IsAgreed max (Move.post_arrives s reply ui answer h) a =
    IsAgreed-post_arrives max s reply ui answer h a
Move-IsAgreed max (Move.delete_arrives s reply ui answer h) a =
    IsAgreed-delete_arrives max s reply ui answer h a

Reach-IsAgreed : (max : ℕ) {start s : System} → Reach max start s → IsAgreed start → IsAgreed s
Reach-IsAgreed max here a = a
Reach-IsAgreed max (next before move) a = Move-IsAgreed max move (Reach-IsAgreed max before a)

-- The page as it opens: the server's rows are its keys, and no request is awaited.
abbrev pub opened : List Summary → System
opened rows = record {
  ui = initial rows;
  rows = rows;
  used = ids rows;
  post_answer = none;
  delete_answer = none;
}

opened-IsAgreed : (rows : List Summary) → IsAgreed (opened rows)
unfolding initial
opened-IsAgreed rows = (refl, λ x h. ground arith, tt, tt)

-- After any interleaving of what the user does, what the server handles, requests that are lost on
-- their way to it and answers that come in, the server's rows are the dashboard's list with what the
-- answers under way say: with the new key first, where one brings a key, and without the keys of the
-- id, where one says that it is gone. No answer is lost here once its request was handled.
pub Reach-view :
    (max : ℕ) (rows : List Summary) {s : System} → Reach max (opened rows) s → s.rows ≡ view s
Reach-view max rows reach = (Reach-IsAgreed max reach (opened-IsAgreed rows)).0

-- Whenever no answer is under way, the dashboard lists the server's rows, in the same order.
pub Reach-rows :
    (max : ℕ) (rows : List Summary) {s : System}
    → Reach max (opened rows) s
    → s.post_answer ≡ none
    → s.delete_answer ≡ none
    → s.rows ≡ s.ui.keys
Reach-rows max rows reach p d = rw (p, d) at (Reach-view max rows reach)
