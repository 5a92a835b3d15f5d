-- ===== src/Tests/KeyStore.antt =====
-- Tests of the key API of the Go server, and its theorems at concrete inputs.
use go_mcp_server.Base.{
  String, ℕ, ◌≤◌, List, [], ◌∷◌, Option, some, true, ◌≡◌, refl, arith, keep, map, ◌==◌, Bool-cases,
  length, subst, eq_iff, inl, inr,
}
use go_mcp_server.Dashboard.Server.{server_create, server_delete}
use go_mcp_server.KeyStore.{
  Row, Table, Call, Request, list, create, delete, rows_of, handle, run, mask, newest_first,
  list_rows, handle_create, handle_delete, created_of, new_row, max_keys_per_user,
}
use go_mcp_server.KeyStore as Store
use go_mcp_server.KeyStore.Isolation.{answers_to, is_call_of, run-isolated}
use go_mcp_server.KeyStore.Cap.{IsWithinCap, run-IsWithinCap}
use go_mcp_server.KeyStore.Refinement.{reply_of, handle-server}

abbrev same_id : String → Option String
same_id id = some id

abbrev some_time : ℕ → String
some_time n = "2026-01-01T00:00:00Z"

abbrev whole_body : String → String
whole_body body = body

abbrev row_of : String → String → ℕ → Row
row_of owner id created_at = record {
  id = id;
  key = "mcp_0123";
  label = "";
  owner = owner;
  created_at = created_at;
}

abbrev table : Table
table = row_of "ann" "a1" 1 ∷ row_of "bob" "b1" 5 ∷ row_of "ann" "a2" 2 ∷ []

abbrev call : String → Request → ℕ → Call
call user request now = record {
  user = some user;
  request = request;
  up = true;
  id = "new";
  key = "mcp_89ab";
  now = now;
}

-- Ann is at the cap, Bob may have one more, and Ann cannot delete Bob's key.
abbrev calls : List Call
calls = call "ann" (create "x") 8 ∷ call "bob" (create "y") 9 ∷ call "ann" (delete "b1") 10 ∷ []

masked : mask "mcp_89ab" ≡ "mcp_••••••••89ab"
unfolding mask
masked = refl

youngest_first : newest_first (rows_of "ann" table) ≡ row_of "ann" "a2" 2 ∷ row_of "ann" "a1" 1 ∷ []
unfolding newest_first
youngest_first = refl

statuses :
    map (λ (a : Store.Answer). a.status) (run same_id some_time whole_body table calls).0
    ≡ 409 ∷ 201 ∷ 404 ∷ []
unfolding run handle
statuses = refl

run-isolated_example :
    (answers_to "ann" calls (run same_id some_time whole_body table calls).0
      ≡ (run same_id some_time whole_body (rows_of "ann" table) (keep (is_call_of "ann") calls)).0)
    × (rows_of "ann" (run same_id some_time whole_body table calls).1
        ≡ (run same_id some_time whole_body
            (rows_of "ann" table)
            (keep (is_call_of "ann") calls)).1)
run-isolated_example = run-isolated same_id some_time whole_body "ann" table calls

table-IsWithinCap : IsWithinCap table
table-IsWithinCap b = elim (Bool-cases ("ann" == b)) [
  | inl ann ↦ subst (λ u. length (rows_of u table) ≤ 2) ((eq_iff "ann" b).0 ann) (omega arith)
  | inr other ↦ ground arith
]

run-IsWithinCap_example : IsWithinCap (run same_id some_time whole_body table calls).1
run-IsWithinCap_example = run-IsWithinCap same_id some_time whole_body table calls table-IsWithinCap

abbrev third : Call
third = call "bob" (create "y") 9

handle-server_example :
    ((
      reply_of (handle_create same_id some_time whole_body "bob" "y" third table).0,
      list_rows same_id some_time whole_body "bob"
          (handle_create same_id some_time whole_body "bob" "y" third table).1,
    )
      ≡ server_create max_keys_per_user (list_rows same_id some_time whole_body "bob" table) (
          created_of same_id some_time whole_body
            (new_row same_id some_time whole_body "bob" "y" third)))
    × ((
      reply_of (handle_delete "bob" (some "b1") true table).0,
      list_rows same_id some_time whole_body "bob" (handle_delete "bob" (some "b1") true table).1,
    )
        ≡ server_delete (list_rows same_id some_time whole_body "bob" table) "b1")
handle-server_example =
    handle-server same_id some_time whole_body "bob" "y" "b1" third table refl (omega arith, tt)
