-- ===== src/KeyStore/Isolation.antt =====
-- A user of the key API sees and changes nothing but his own keys.
use go_mcp_server.Base.{
  String, ℕ, List, [], ◌∷◌, Option, none, some, Bool, true, false, not, ◌&&◌, leb, if◌then◌else◌,
  keep, length, ◌==◌, ◌≡◌, refl, sym, ap, ◌∙◌, arith, eq_iff, Bool-cases, Option-cases, inl, inr,
  subst,
}
use go_mcp_server.KeyStore.{
  Row, Table, Call, Request, list, create, delete, Answer, owned_by, rows_of, is_target, delete_row,
  new_row, insert_under_cap, handle_delete, handle_request, handle, run, list_rows,
}

-- Filters.
module _ {A : Type 0} where
  keep-keep : (p : A → Bool) (xs : List A) → keep p (keep p xs) ≡ keep p xs
  keep-keep p [] = refl
  keep-keep p (x ∷ xs) = elim (Bool-cases (p x)) [
    | inl kept ↦ rw kept (rw kept (ap (λ ys. x ∷ ys) (keep-keep p xs)))
    | inr gone ↦ rw gone (keep-keep p xs)
  ]

  keep_and :
      (p q : A → Bool) (xs : List A)
      → keep (λ x. p x && q x) (keep q xs) ≡ keep (λ x. p x && q x) xs
  keep_and p q [] = refl
  keep_and p q (x ∷ xs) = ground (arith, keep_and p q xs)

  -- What is left of a filter does not depend on the order of two of them.
  keep_comm : (p q : A → Bool) (xs : List A) → keep p (keep q xs) ≡ keep q (keep p xs)
  keep_comm p q [] = refl
  keep_comm p q (x ∷ xs) = ground (arith, keep_comm p q xs)

rows_of-rows_of : (b : String) (t : Table) → rows_of b (rows_of b t) ≡ rows_of b t
rows_of-rows_of b t = keep-keep (owned_by b) t

-- The rows of another user are no target.
delete-other :
    (b owner id : String) (t : Table)
    → owner == b ≡ false
    → rows_of b (keep (λ r. not (is_target owner id r)) t) ≡ rows_of b t
delete-other b owner id [] h = refl
delete-other b owner id (r ∷ t) h =
    ground
      (arith, delete-other b owner id t h, eq_iff r.owner owner, eq_iff r.owner b, eq_iff owner b)

delete_row-other :
    (b owner id : String) (t : Table)
    → owner == b ≡ false
    → rows_of b (delete_row owner id t).1 ≡ rows_of b t
delete_row-other b owner id t h = ground (arith, delete-other b owner id t h)

handle_delete-other :
    (b owner : String) (id : Option String) (up : Bool) (t : Table)
    → owner == b ≡ false
    → rows_of b (handle_delete owner id up t).1 ≡ rows_of b t
handle_delete-other b owner none up t h = refl
handle_delete-other b owner (some id) true t h = delete_row-other b owner id t h
handle_delete-other b owner (some id) false t h = refl

-- Two outcomes agree for a user: the answers are the same, and the first table is the user's part of
-- the second.
abbrev Agrees : String → Answer × Table → Answer × Table → Type 0
Agrees b own all_ = (own.0 ≡ all_.0) × (own.1 ≡ rows_of b all_.1)

delete_row-own :
    (b id : String) (t : Table) → Agrees b (delete_row b id (rows_of b t)) (delete_row b id t)
delete_row-own b id t =
    let same = keep_and (λ (r : Row). r.id == id) (owned_by b) t in
    let rest = keep_comm (λ r. not (is_target b id r)) (owned_by b) t in
    elim (Bool-cases (leb 1 (length (keep (is_target b id) t)))) [
      | inl found ↦ rw (same, found) (refl, rest)
      | inr missing ↦ rw (same, missing) (refl, refl)
    ]

handle_delete-own :
    (b : String) (id : Option String) (up : Bool) (t : Table)
    → Agrees b (handle_delete b id up (rows_of b t)) (handle_delete b id up t)
handle_delete-own b none up t = (refl, refl)
handle_delete-own b (some id) true t = delete_row-own b id t
handle_delete-own b (some id) false t = (refl, refl)

-- Whether a call is of a user.
abbrev user_is : String → Option String → Bool
user_is b none = false
user_is b (some u) = u == b

abbrev pub is_call_of : String → Call → Bool
is_call_of b c = user_is b c.user

module _ (canonical : String → Option String) (format_time : ℕ → String)
    (decoded_label : String → String) where
  abbrev handle_ : Call → Table → Answer × Table
  handle_ = handle canonical format_time decoded_label

  request_ : String → Call → Request → Table → Answer × Table
  request_ = handle_request canonical format_time decoded_label

  insert-other :
      (b : String) (r : Row) (t : Table)
      → r.owner == b ≡ false
      → rows_of b (insert_under_cap canonical format_time decoded_label r t).1 ≡ rows_of b t
  insert-other b r t h = ground arith

  insert-own :
      (b : String) (r : Row) (t : Table)
      → r.owner ≡ b
      → Agrees b
          (insert_under_cap canonical format_time decoded_label r (rows_of b t))
          (insert_under_cap canonical format_time decoded_label r t)
  insert-own b r t h =
      let full : length (rows_of r.owner (rows_of b t)) ≡ length (rows_of r.owner t) =
        subst (λ o. length (rows_of o (rows_of b t)) ≡ length (rows_of o t)) (sym h)
          (ap length (rows_of-rows_of b t)) in
      let mine : owned_by b r ≡ true = (eq_iff r.owner b).1 h in ground (arith, full, mine)

  request-other :
      (b owner : String) (c : Call) (q : Request) (t : Table)
      → owner == b ≡ false
      → rows_of b (request_ owner c q t).1 ≡ rows_of b t
  unfolding request_
  request-other b owner c list t h = ground arith
  request-other b owner c (create body) t h = elim (Bool-cases c.up) [
    | inl answers ↦
        rw answers (insert-other b (new_row canonical format_time decoded_label owner body c) t h)
    | inr fails ↦ rw fails refl
  ]
  request-other b owner c (delete id) t h = handle_delete-other b owner (canonical id) c.up t h

  handle-other :
      (b : String) (c : Call) (t : Table)
      → is_call_of b c ≡ false
      → rows_of b (handle_ c t).1 ≡ rows_of b t
  unfolding handle request_
  handle-other b c t h = elim (Option-cases c.user) [
    | inl nobody ↦ rw nobody refl
    | inr (owner, is) ↦ rw is (request-other b owner c c.request t (rw is at h))
  ]

  request-own :
      (b : String) (c : Call) (q : Request) (t : Table)
      → ((request_ b c q (rows_of b t)).0 ≡ (request_ b c q t).0)
        × ((request_ b c q (rows_of b t)).1 ≡ rows_of b (request_ b c q t).1)
  unfolding request_ list_rows
  request-own b c list t = elim (Bool-cases c.up) [
    | inl answers ↦ rw (answers, rows_of-rows_of b t) (refl, refl)
    | inr fails ↦ rw fails (refl, refl)
  ]
  request-own b c (create body) t = elim (Bool-cases c.up) [
    | inl answers ↦
        rw answers (insert-own b (new_row canonical format_time decoded_label b body c) t refl)
    | inr fails ↦ rw fails (refl, refl)
  ]
  request-own b c (delete id) t = handle_delete-own b (canonical id) c.up t

  handle-own :
      (b : String) (c : Call) (t : Table)
      → is_call_of b c ≡ true
      → Agrees b (handle_ c (rows_of b t)) (handle_ c t)
  unfolding handle request_
  handle-own b c t h = elim (Option-cases c.user) [
    | inl nobody ↦ absurd (ground arith)
    | inr (owner, is) ↦
        let same : owner ≡ b = (eq_iff owner b).0 (rw is at h) in
        let mine : c.user ≡ some b = is ∙ ap some same in rw mine (request-own b c c.request t)
  ]

-- The answers to a user's calls, among those to all.
abbrev pub answers_to : String → List Call → List Answer → List Answer
answers_to b [] answers = []
answers_to b (c ∷ calls) [] = []
answers_to b (c ∷ calls) (a ∷ answers) =
    let rest = answers_to b calls answers in if is_call_of b c then a ∷ rest else rest

-- Users are isolated: whatever all users do, in whatever order, a user gets the answers and keeps the
-- rows that he would get and keep if his calls were the only ones, on a table with his rows only.
pub run-isolated :
    (canonical : String → Option String) (format_time : ℕ → String)
    (decoded_label : String → String) (b : String) (t : Table) (calls : List Call)
    → (answers_to b calls (run canonical format_time decoded_label t calls).0
        ≡ (run canonical format_time decoded_label (rows_of b t) (keep (is_call_of b) calls)).0)
      × (rows_of b (run canonical format_time decoded_label t calls).1
          ≡ (run canonical format_time decoded_label (rows_of b t) (keep (is_call_of b) calls)).1)
unfolding run
run-isolated canonical format_time decoded_label b t [] = (refl, refl)
run-isolated canonical format_time decoded_label b t (c ∷ calls) =
    let next = (handle canonical format_time decoded_label c t).1 in
    let (answers, rows) = run-isolated canonical format_time decoded_label b next calls in
    elim (Bool-cases (is_call_of b c)) [
      | inl own ↦
          let (answer, table) = handle-own canonical format_time decoded_label b c t own in
          let mine = keep (is_call_of b) calls in
          let alone = handle canonical format_time decoded_label c (rows_of b t) in
          rw own (
            ap (λ rest. (handle canonical format_time decoded_label c t).0 ∷ rest)
                  (answers
                    ∙ ap (λ u. (run canonical format_time decoded_label u mine).0) (sym table))
                ∙ ap (λ a. a ∷ (run canonical format_time decoded_label alone.1 mine).0)
                    (sym answer),
            rows ∙ ap (λ u. (run canonical format_time decoded_label u mine).1) (sym table),
          )
      | inr other ↦
          let kept = handle-other canonical format_time decoded_label b c t other in
          let mine = keep (is_call_of b) calls in
          rw other (
            answers ∙ ap (λ u. (run canonical format_time decoded_label u mine).0) kept,
            rows ∙ ap (λ u. (run canonical format_time decoded_label u mine).1) kept,
          )
    ]
