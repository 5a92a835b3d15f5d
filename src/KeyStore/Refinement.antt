-- ===== src/KeyStore/Refinement.antt =====
-- The key API on a database that answers does to one user's keys, as they are listed, what the server
-- of Dashboard/Server.antt does.
use go_mcp_server.Base.{
  String, ℕ, suc, List, [], ◌∷◌, map, Option, none, some, true, false, not, ltb, leb, keep, length,
  contains, ◌==◌, ◌≡◌, refl, sym, ap, eq_iff, ◌∙◌, arith, Bool-cases, inl, inr,
}
use go_mcp_server.Dashboard.{Summary, Reply, Data, response, object, other_than}
use go_mcp_server.Dashboard.Ids.{ids}
use go_mcp_server.Dashboard.Server.{server_create, server_delete}
use go_mcp_server.Keys.Listing.{is_ok}
use go_mcp_server.KeyStore.{
  Row, Table, Call, Answer, Body, error, listing, created, done, owned_by, rows_of, newest_first,
  is_target, handle_delete, new_row, handle_create, list_rows, summary_of, created_of,
  max_keys_per_user,
}
use go_mcp_server.KeyStore.Order.{
  NotAfter, newest_first-NotAfter, insert_row-youngest, keep-newest_first, length-newest_first,
}

-- What the site reads of an answer.
abbrev data_of : Body → Data
data_of (error text) = object (some text) none
data_of (listing keys max) = object none none
data_of (created c) = object none (some c)
data_of done = object none none

abbrev pub reply_of : Answer → Reply
reply_of a = response (is_ok a.status) (data_of a.body)

-- The rows of a user that a deletion leaves.
rows_of-delete :
    (owner id : String) (t : Table)
    → rows_of owner (keep (λ r. not (is_target owner id r)) t)
      ≡ keep (λ (r : Row). not (r.id == id)) (rows_of owner t)
rows_of-delete owner id [] = refl
rows_of-delete owner id (r ∷ t) = ground (arith, rows_of-delete owner id t)

keep-is_target :
    (owner id : String) (t : Table)
    → keep (is_target owner id) t ≡ keep (λ (r : Row). r.id == id) (rows_of owner t)
keep-is_target owner id [] = refl
keep-is_target owner id (r ∷ t) = ground (arith, keep-is_target owner id t)

module _ (canonical : String → Option String) (format_time : ℕ → String)
    (decoded_label : String → String) where
  abbrev summary_ : Row → Summary
  summary_ = summary_of canonical format_time decoded_label

  abbrev listed : String → Table → List Summary
  listed = list_rows canonical format_time decoded_label

  length-summaries : (rows : Table) → length (map summary_ rows) ≡ length rows
  length-summaries [] = refl
  length-summaries (r ∷ rows) = ap (λ (n : ℕ). suc n) (length-summaries rows)

  length-listed : (owner : String) (t : Table) → length (listed owner t) ≡ length (rows_of owner t)
  unfolding list_rows
  length-listed owner t =
      length-summaries (newest_first (rows_of owner t)) ∙ length-newest_first (rows_of owner t)

  map-keep :
      (id : String) (rows : Table)
      → map summary_ (keep (λ (r : Row). not (r.id == id)) rows)
        ≡ keep (other_than id) (map summary_ rows)
  map-keep id [] = refl
  map-keep id (r ∷ rows) = ground (arith, map-keep id rows)

  contains-ids :
      (id : String) (rows : Table)
      → contains (ids (map summary_ rows)) id ≡ leb 1 (length (keep (λ (r : Row). r.id == id) rows))
  contains-ids id [] = refl
  contains-ids id (r ∷ rows) = ground (arith, contains-ids id rows)

  listed-add :
      (owner : String) (r : Row) (t : Table)
      → owned_by owner r ≡ true
      → NotAfter r.created_at (rows_of owner t)
      → listed owner (r ∷ t) ≡ summary_ r ∷ listed owner t
  unfolding list_rows newest_first
  listed-add owner r t mine youngest = rw mine (
      ap (map summary_) (
        insert_row-youngest r (newest_first (rows_of owner t))
          (newest_first-NotAfter r.created_at (rows_of owner t) youngest)))

  listed-delete :
      (owner id : String) (t : Table)
      → listed owner (keep (λ r. not (is_target owner id r)) t)
        ≡ keep (other_than id) (listed owner t)
  unfolding list_rows
  listed-delete owner id t =
      ap (λ rows. map summary_ (newest_first rows)) (rows_of-delete owner id t)
      ∙ ap (map summary_) (keep-newest_first (λ (r : Row). not (r.id == id)) (rows_of owner t))
      ∙ map-keep id (newest_first (rows_of owner t))

  contains-listed :
      (owner id : String) (t : Table)
      → leb 1 (length (keep (is_target owner id) t)) ≡ contains (ids (listed owner t)) id
  unfolding list_rows
  contains-listed owner id t =
      let same = λ (r : Row). r.id == id in
      ap (λ rows. leb 1 (length rows)) (keep-is_target owner id t)
      ∙ ap (leb 1) (sym (length-newest_first (keep same (rows_of owner t))))
      ∙ ap (λ rows. leb 1 (length rows)) (keep-newest_first same (rows_of owner t))
      ∙ sym (contains-ids id (newest_first (rows_of owner t)))

handle_create-server :
    (canonical : String → Option String) (format_time : ℕ → String)
    (decoded_label : String → String) (owner body : String) (c : Call) (t : Table)
    → c.up ≡ true
    → NotAfter c.now (rows_of owner t)
    → (
      reply_of (handle_create canonical format_time decoded_label owner body c t).0,
      list_rows canonical format_time decoded_label owner
          (handle_create canonical format_time decoded_label owner body c t).1,
    )
      ≡ server_create max_keys_per_user (list_rows canonical format_time decoded_label owner t) (
          created_of canonical format_time decoded_label
            (new_row canonical format_time decoded_label owner body c))
unfolding server_create
handle_create-server canonical format_time decoded_label owner body c t up youngest =
    let r = new_row canonical format_time decoded_label owner body c in
    let full = length-listed canonical format_time decoded_label owner t in
    let mine : owned_by owner r ≡ true = (eq_iff owner owner).1 refl in
    elim (Bool-cases (ltb (length (rows_of owner t)) max_keys_per_user)) [
      | inl under ↦
          let room : leb max_keys_per_user
                (length (listed canonical format_time decoded_label owner t))
              ≡ false =
            rw full (ground arith) in
          let added = listed-add canonical format_time decoded_label owner r t mine youngest in
          rw (up, under, room, added) refl
      | inr over ↦
          let no_room : leb max_keys_per_user
                (length (listed canonical format_time decoded_label owner t))
              ≡ true =
            rw full (ground arith) in
          rw (up, over, no_room) refl
    ]

handle_delete-server :
    (canonical : String → Option String) (format_time : ℕ → String)
    (decoded_label : String → String) (owner id : String) (t : Table)
    → (
      reply_of (handle_delete owner (some id) true t).0,
      list_rows canonical format_time decoded_label owner (handle_delete owner (some id) true t).1,
    )
      ≡ server_delete (list_rows canonical format_time decoded_label owner t) id
unfolding server_delete
handle_delete-server canonical format_time decoded_label owner id t =
    let found = contains-listed canonical format_time decoded_label owner id t in
    let left = listed-delete canonical format_time decoded_label owner id t in
    elim (Bool-cases (leb 1 (length (keep (is_target owner id) t)))) [
      | inl hit ↦ rw (sym found, hit, left) refl
      | inr miss ↦ rw (sym found, miss) refl
    ]

-- For a user, the API refines the server that the dashboard is modelled with. A creation whose row is
-- not older than his others, on a database that answers, and a deletion of an id that is one have the
-- answers of `server_create` and `server_delete` on the list of his keys, and lead to their lists; the
-- rows of other users do not matter.
pub handle-server :
    (canonical : String → Option String) (format_time : ℕ → String)
    (decoded_label : String → String) (owner body id : String) (c : Call) (t : Table)
    → c.up ≡ true
    → NotAfter c.now (rows_of owner t)
    → ((
      reply_of (handle_create canonical format_time decoded_label owner body c t).0,
      list_rows canonical format_time decoded_label owner
          (handle_create canonical format_time decoded_label owner body c t).1,
    )
        ≡ server_create max_keys_per_user (list_rows canonical format_time decoded_label owner t) (
            created_of canonical format_time decoded_label
              (new_row canonical format_time decoded_label owner body c)))
      × ((
        reply_of (handle_delete owner (some id) true t).0,
        list_rows canonical format_time decoded_label owner
            (handle_delete owner (some id) true t).1,
      )
          ≡ server_delete (list_rows canonical format_time decoded_label owner t) id)
handle-server canonical format_time decoded_label owner body id c t up youngest = (
  handle_create-server canonical format_time decoded_label owner body c t up youngest,
  handle_delete-server canonical format_time decoded_label owner id t,
)
