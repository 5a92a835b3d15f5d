-- ===== src/Dashboard/Server/Turns.antt =====
-- How long the server and the answers can go on while the user does nothing.
use go_mcp_server.Base.{
  String, List, [], ◌∷◌, ℕ, ◌+◌, ◌≤◌, Bool, true, false, Option, none, some, ◌≡◌,
}
use go_mcp_server.Base.{arith, subst, length}
use go_mcp_server.Dashboard.{State, Summary, Reply}
use go_mcp_server.Dashboard.{end_create, end_delete}
use go_mcp_server.Dashboard.Flight.{IsFlag}
use go_mcp_server.Dashboard.Runs.{post_ends-step, delete_ends-step}
use go_mcp_server.Dashboard.Server.{System, Move, Reach}
use go_mcp_server.Dashboard.Server.Agreement.{opened}
use go_mcp_server.Dashboard.Server.Steady.{
  end_create-posts, end_delete-deletes, IsSteady, Move-IsSteady, Reach-IsSteady, opened-IsSteady,
  end_create-deletes, end_delete-posts,
}

-- The moves that are not the user's.
abbrev pub is_turn : {max : ℕ} {s t : System} → Move max s t → Bool
is_turn (Move.user s e ui u h) = false
is_turn m = true

pub data Turns (max : ℕ) (start : System) : System → Type 0 where
  no_turn : Turns max start start
  turn :
      {s t : System} → Turns max start s → (m : Move max s t) → is_turn m ≡ true → Turns max start t

unfoldable pub count : {max : ℕ} {start s : System} → Turns max start s → ℕ
count no_turn = 0
count (turn before m is) = 1 + count before

-- What is left to do for a request: to handle or lose it, and to bring its answer.
abbrev left {ℓ} : {A : Type ℓ} → Option Reply → List A → ℕ
left none xs = length xs + length xs
left (some reply) xs = length xs

abbrev work : System → ℕ
work s = left s.post_answer s.ui.posts + left s.delete_answer s.ui.deletes

IsFlag-tail {ℓ} : {A : Type ℓ} (x : A) (xs : List A) (flag : Bool) → IsFlag (x ∷ xs) flag → xs ≡ []
IsFlag-tail x xs flag h = ground arith

end_create-left :
    (reply : Reply) (s : State) (body : String) (flag : Bool) (rest : List String)
    (d : Option Reply) {s' : State}
    → IsFlag (body ∷ rest) flag
    → end_create reply (record s { posts = rest }) ≡ s'
    → 1 + (left none s'.posts + left d s'.deletes)
      ≡ left (some reply) (body ∷ rest) + left d s.deletes
end_create-left reply s body flag rest d h ends =
    let alone = IsFlag-tail body rest flag h in
    let posts = end_create-posts reply (record s { posts = rest }) in
    let deletes = end_create-deletes reply (record s { posts = rest }) in
    subst
      (λ (u : State).
        1 + (left none u.posts + left d u.deletes)
        ≡ left (some reply) (body ∷ rest) + left d s.deletes)
      ends (rw (posts, deletes, alone) (omega arith))

end_delete-left :
    (reply : Reply) (s : State) (k : Summary) (flag : Bool) (rest : List Summary) (p : Option Reply)
    {s' : State}
    → IsFlag (k ∷ rest) flag
    → end_delete k reply (record s { deletes = rest }) ≡ s'
    → 1 + (left p s'.posts + left none s'.deletes) ≡ left p s.posts + left (some reply) (k ∷ rest)
end_delete-left reply s k flag rest p h ends =
    let alone = IsFlag-tail k rest flag h in
    let posts = end_delete-posts k reply (record s { deletes = rest }) in
    let deletes = end_delete-deletes k reply (record s { deletes = rest }) in
    subst
      (λ (u : State).
        1 + (left p u.posts + left none u.deletes) ≡ left p s.posts + left (some reply) (k ∷ rest))
      ends (rw (posts, deletes, alone) (omega arith))

Move-work :
    (max : ℕ) {s t : System} (m : Move max s t)
    → IsSteady s
    → is_turn m ≡ true
    → 1 + work t ≡ work s
Move-work max (Move.user s e ui u h) steady is = absurd (cc is)
Move-work max (Move.handle_post s body c awaits quiet fresh) steady is =
    rw (awaits, quiet) (omega arith)
Move-work max (Move.handle_delete s k awaits quiet) steady is = rw (awaits, quiet) (omega arith)
Move-work max (Move.lose_post s body awaits quiet) steady is = rw (awaits, quiet) (omega arith)
Move-work max (Move.lose_delete s k awaits quiet) steady is = rw (awaits, quiet) (omega arith)
Move-work max (Move.post_arrives s reply ui answer h) ((creates, _), _, _) is =
    let (body, rest, awaits, ends) = post_ends-step max s.ui reply ui h in
    rw (awaits, answer)
      (end_create-left reply s.ui body s.ui.creating rest s.delete_answer (rw awaits at creates)
        ends)
Move-work max (Move.delete_arrives s reply ui answer h) ((_, deletes), _, _) is =
    let (k, rest, awaits, ends) = delete_ends-step max s.ui reply ui h in
    rw (awaits, answer)
      (end_delete-left reply s.ui k s.ui.deleting rest s.post_answer (rw awaits at deletes) ends)

Turns-IsSteady : (max : ℕ) {s t : System} → Turns max s t → IsSteady s → IsSteady t
Turns-IsSteady max no_turn steady = steady
Turns-IsSteady max (turn before m is) steady =
    Move-IsSteady max m (Turns-IsSteady max before steady)

Turns-work :
    (max : ℕ) {s t : System} (turns : Turns max s t) → IsSteady s → count turns + work t ≡ work s
unfolding count
Turns-work max no_turn steady = omega arith
Turns-work max (turn {s} {t} before m is) steady =
    let one = Move-work max m (Turns-IsSteady max before steady) is in
    let more = Turns-work max before steady in omega arith

work-small : (s : System) → IsSteady s → work s ≤ 4
work-small s ((creates, deletes), post, delete) = ground arith

-- From every state that the dashboard and the server reach, while the user does nothing, at most
-- four moves are made: each of the two requests is handled or lost, and is answered.
pub Reach-turns :
    (max : ℕ) (rows : List Summary) {s t : System}
    → Reach max (opened rows) s
    → (turns : Turns max s t) → count turns ≤ 4
Reach-turns max rows {s} {t} reach turns =
    let steady = Reach-IsSteady max reach (opened-IsSteady rows) in
    let all = Turns-work max turns steady in let few = work-small s steady in omega arith
