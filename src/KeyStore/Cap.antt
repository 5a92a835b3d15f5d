-- ===== src/KeyStore/Cap.antt =====
-- No user ever holds more keys than the cap.
use go_mcp_server.Base.{
  String, ℕ, ◌≤◌, List, [], ◌∷◌, Option, none, some, Bool, true, false, not, keep, length, ap,
  eq_iff, arith, Bool-cases, Option-cases, inl, inr,
}
use go_mcp_server.KeyStore.{
  Row, Table, Call, Request, list, create, delete, owned_by, rows_of, is_target, delete_row,
  new_row, insert_under_cap, handle_delete, handle_request, handle, run, max_keys_per_user,
}

-- Each user holds at most the cap.
abbrev pub IsWithinCap : Table → Type 0
IsWithinCap t = (b : String) → length (rows_of b t) ≤ max_keys_per_user

length-keep : (p q : Row → Bool) (t : Table) → length (keep p (keep q t)) ≤ length (keep p t)
length-keep p q [] = omega arith
length-keep p q (r ∷ t) = ground (arith, length-keep p q t)

delete_row-IsWithinCap :
    (owner id : String) (t : Table) → IsWithinCap t → IsWithinCap (delete_row owner id t).1
delete_row-IsWithinCap owner id t h b =
    let fewer = length-keep (owned_by b) (λ r. not (is_target owner id r)) t in
    let before = h b in ground (arith, fewer, before)

handle_delete-IsWithinCap :
    (owner : String) (id : Option String) (up : Bool) (t : Table)
    → IsWithinCap t
    → IsWithinCap (handle_delete owner id up t).1
handle_delete-IsWithinCap owner none up t h = h
handle_delete-IsWithinCap owner (some id) true t h = delete_row-IsWithinCap owner id t h
handle_delete-IsWithinCap owner (some id) false t h = h

module _ (canonical : String → Option String) (format_time : ℕ → String)
    (decoded_label : String → String) where
  insert-IsWithinCap :
      (r : Row) (t : Table)
      → IsWithinCap t
      → IsWithinCap (insert_under_cap canonical format_time decoded_label r t).1
  insert-IsWithinCap r t h b = elim (Bool-cases (owned_by b r)) [
    | inl mine ↦
        let same = ap (λ o. length (rows_of o t)) ((eq_iff r.owner b).0 mine) in
        let before = h b in ground (arith, same, before, mine)
    | inr other ↦ let before = h b in ground (arith, before, other)
  ]

  request-IsWithinCap :
      (owner : String) (c : Call) (q : Request) (t : Table)
      → IsWithinCap t
      → IsWithinCap (handle_request canonical format_time decoded_label owner c q t).1
  request-IsWithinCap owner c list t h = elim (Bool-cases c.up) [
    | inl answers ↦ rw answers h
    | inr fails ↦ rw fails h
  ]
  request-IsWithinCap owner c (create body) t h = elim (Bool-cases c.up) [
    | inl answers ↦
        rw answers
          (insert-IsWithinCap (new_row canonical format_time decoded_label owner body c) t h)
    | inr fails ↦ rw fails h
  ]
  request-IsWithinCap owner c (delete id) t h =
      handle_delete-IsWithinCap owner (canonical id) c.up t h

  handle-IsWithinCap :
      (c : Call) (t : Table)
      → IsWithinCap t
      → IsWithinCap (handle canonical format_time decoded_label c t).1
  unfolding handle
  handle-IsWithinCap c t h = elim (Option-cases c.user) [
    | inl nobody ↦ rw nobody h
    | inr (owner, is) ↦ rw is (request-IsWithinCap owner c c.request t h)
  ]

-- Whatever calls are made one after another, and whoever makes them, every user holds at most as many
-- keys as `MaxKeysPerUser` says, if that was so before.
pub run-IsWithinCap :
    (canonical : String → Option String) (format_time : ℕ → String)
    (decoded_label : String → String) (t : Table) (calls : List Call)
    → IsWithinCap t
    → IsWithinCap (run canonical format_time decoded_label t calls).1
unfolding run
run-IsWithinCap canonical format_time decoded_label t [] h = h
run-IsWithinCap canonical format_time decoded_label t (c ∷ calls) h =
    run-IsWithinCap canonical format_time decoded_label
      (handle canonical format_time decoded_label c t).1 calls
      (handle-IsWithinCap canonical format_time decoded_label c t h)
