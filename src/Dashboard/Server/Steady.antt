-- ===== src/Dashboard/Server/Steady.antt =====
-- What is awaited and what is under way, of the dashboard and the server together.
use go_mcp_server.Base.{List, [], ◌∷◌, ℕ, true, false, Option, none, some, ◌≡◌, refl}
use go_mcp_server.Base.{arith, subst}
use go_mcp_server.Dashboard.{State, Summary, Event, Reply, initial, step}
use go_mcp_server.Dashboard.{begin_create, begin_delete, end_create, end_delete}
use go_mcp_server.Dashboard.{create_answered, delete_answered, post_ends, delete_ends}
use go_mcp_server.Dashboard.Ids.{keeps_list}
use go_mcp_server.Dashboard.Flight.{IsFlagged, step-IsFlagged, initial-IsFlagged}
use go_mcp_server.Dashboard.Runs.{post_ends-step, delete_ends-step}
use go_mcp_server.Dashboard.Server.{System, Move, Reach, here, next}
use go_mcp_server.Dashboard.Server.Agreement.{opened}

-- An answer is under way for a request that is awaited only.
abbrev pub IsBusy {ℓ} : {A : Type ℓ} → Option Reply → List A → Type 0
IsBusy none xs = true ≡ true
IsBusy (some reply) [] = false ≡ true
IsBusy (some reply) (x ∷ xs) = true ≡ true

abbrev pub IsSteady : System → Type 0
IsSteady s = IsFlagged s.ui × IsBusy s.post_answer s.ui.posts × IsBusy s.delete_answer s.ui.deletes

step-IsBusy :
    (max : ℕ) (s : State) (e : Event) (s' : State) (p d : Option Reply)
    → keeps_list e ≡ true
    → step max s e ≡ some s'
    → IsBusy p s.posts
    → IsBusy d s.deletes
    → IsBusy p s'.posts × IsBusy d s'.deletes
unfolding step begin_create begin_delete
step-IsBusy max s e s' p d u h post delete = ground arith

pub end_create-deletes : (reply : Reply) (s : State) → (end_create reply s).deletes ≡ s.deletes
unfolding end_create create_answered
end_create-deletes reply s = ground arith

pub end_delete-posts :
    (k : Summary) (reply : Reply) (s : State) → (end_delete k reply s).posts ≡ s.posts
unfolding end_delete delete_answered
end_delete-posts k reply s = ground arith

pub end_create-posts : (reply : Reply) (s : State) → (end_create reply s).posts ≡ s.posts
unfolding end_create create_answered
end_create-posts reply s = ground arith

pub end_delete-deletes :
    (k : Summary) (reply : Reply) (s : State) → (end_delete k reply s).deletes ≡ s.deletes
unfolding end_delete delete_answered
end_delete-deletes k reply s = ground arith

pub Move-IsSteady : (max : ℕ) {s t : System} → Move max s t → IsSteady s → IsSteady t
Move-IsSteady max (Move.user s e ui u h) (flags, post, delete) =
    let (post', delete') =
      step-IsBusy max s.ui e ui s.post_answer s.delete_answer u h post delete in
    (step-IsFlagged max s.ui e ui flags h, post', delete')
Move-IsSteady max (Move.handle_post s body c awaits quiet fresh) (flags, post, delete) =
    (flags, rw awaits refl, delete)
Move-IsSteady max (Move.handle_delete s k awaits quiet) (flags, post, delete) =
    (flags, post, rw awaits refl)
Move-IsSteady max (Move.lose_post s body awaits quiet) (flags, post, delete) =
    (flags, rw awaits refl, delete)
Move-IsSteady max (Move.lose_delete s k awaits quiet) (flags, post, delete) =
    (flags, post, rw awaits refl)
Move-IsSteady max (Move.post_arrives s reply ui answer h) (flags, post, delete) =
    let (body, rest, _, ends) = post_ends-step max s.ui reply ui h in
    let same = end_create-deletes reply (record s.ui { posts = rest }) in
    (
      step-IsFlagged max s.ui (post_ends reply) ui flags h,
      refl,
      subst (λ (u : State). IsBusy s.delete_answer u.deletes) ends (rw same delete),
    )
Move-IsSteady max (Move.delete_arrives s reply ui answer h) (flags, post, delete) =
    let (k, rest, _, ends) = delete_ends-step max s.ui reply ui h in
    let same = end_delete-posts k reply (record s.ui { deletes = rest }) in
    (
      step-IsFlagged max s.ui (delete_ends reply) ui flags h,
      subst (λ (u : State). IsBusy s.post_answer u.posts) ends (rw same post),
      refl,
    )

pub Reach-IsSteady : (max : ℕ) {start s : System} → Reach max start s → IsSteady start → IsSteady s
Reach-IsSteady max here a = a
Reach-IsSteady max (next before move) a = Move-IsSteady max move (Reach-IsSteady max before a)

pub opened-IsSteady : (rows : List Summary) → IsSteady (opened rows)
unfolding initial
opened-IsSteady rows = (initial-IsFlagged rows, refl, refl)
