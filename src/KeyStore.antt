-- ===== src/KeyStore.antt =====
-- The key API of the Go server: `Store` and `Handler` of internal/keysapi/keys.go, over the table
-- `api_keys`. What Postgres and
-- `GenerateKey` make up (the id, the time and the key of a row) comes with a call, and so does whether
-- the database answers. `canonical` is the id that `uuid.Parse` reads in a text, as Postgres writes it;
-- `format_time` is the RFC 3339 text of a time, and `decoded_label` what `json.Decoder.Decode` leaves
-- in `body.Label`.
pub mod Isolation
pub mod Cap
pub mod Order
pub mod Refinement
use Prim.Native.String.{[], ◌∷◌}
use go_mcp_server.Base.{
  String, ◌<>◌, Char, code, ℕ, suc, zero, List, map, Option, none, some, Bool, true, false, not,
  ◌&&◌, ltb, leb, if◌then◌else◌, keep, length, ◌==◌,
}
use go_mcp_server.Json.{decimal}
use go_mcp_server.Dashboard.{Summary, Created}
use go_mcp_server.Keys.StoredLabel.{create_label, rune_count}

-- MaxKeysPerUser
abbrev pub max_keys_per_user : ℕ
max_keys_per_user = 2

pub record Row : Type 0 where
  pub id : String
  pub key : String
  pub label : String
  pub owner : String
  pub created_at : ℕ

-- The last characters of a text; a key is ASCII, so they are bytes.
abbrev pub last_of : ℕ → String → String
last_of n [] = []
last_of n (c ∷ s) = let rest = last_of n s in if leb (rune_count (c ∷ s)) n then c ∷ s else rest

-- `mask`
unfoldable pub mask : String → String
mask key = if ltb (rune_count key) 4 then key else "mcp_" <> ("••••••••" <> last_of 4 key)

abbrev pub Table : Type 0
Table = List Row

-- `WHERE clerk_user_id = $1`
abbrev pub owned_by : String → Row → Bool
owned_by owner r = r.owner == owner

abbrev pub rows_of : String → Table → Table
rows_of owner table = keep (owned_by owner) table

-- A row stands before those that are not younger.
abbrev pub insert_row : Row → Table → Table
insert_row r List.[] = List.◌∷◌ r List.[]
insert_row r (List.◌∷◌ q rows) =
    let rest = insert_row r rows in
    if leb q.created_at r.created_at then List.◌∷◌ r (List.◌∷◌ q rows) else List.◌∷◌ q rest

-- `ORDER BY created_at DESC`; of rows of the same time, whose order Postgres leaves open, the one that
-- was inserted last comes first.
unfoldable pub newest_first : Table → Table
newest_first List.[] = List.[]
newest_first (List.◌∷◌ r rows) = insert_row r (newest_first rows)

-- What a call is answered with: a status, and the object that `writeJSON` encodes.
pub data Body : Type 0 where
  error : (text : String) → Body
  listing : (keys : List Summary) → (max : ℕ) → Body
  created : Created → Body
  done : Body

pub record Answer : Type 0 where
  pub status : ℕ
  pub body : Body

pub data Request : Type 0 where
  list : Request
  create : (body : String) → Request
  delete : (id : String) → Request

-- A call: the user that `clerkauth.UserID` finds in the context; what he asks; whether the database
-- answers; and what is made up for a new row.
pub record Call : Type 0 where
  pub user : Option String
  pub request : Request
  pub up : Bool
  pub id : String
  pub key : String
  pub now : ℕ

abbrev pub unauthorized : Answer
unauthorized = record { status = 401; body = error "unauthorized" }

abbrev pub key_limit : Answer
key_limit = record {
  status = 409;
  body = error ("you can have at most " <> (decimal max_keys_per_user <> " API keys"));
}

-- `id = $1 AND clerk_user_id = $2`
abbrev pub is_target : String → String → Row → Bool
is_target owner id r = r.id == id && owned_by owner r

-- `Store.Delete` after its check of the id, on a database that answers
abbrev pub delete_row : String → String → Table → Answer × Table
delete_row owner id table =
    if leb 1 (length (keep (is_target owner id) table))
    then (record { status = 200; body = done }, keep (λ r. not (is_target owner id r)) table)
    else (record { status = 404; body = error "key not found" }, table)

-- `Handler.Delete`, by what `uuid.Parse` makes of the id
abbrev pub handle_delete : String → Option String → Bool → Table → Answer × Table
handle_delete owner none up table = (record { status = 404; body = error "key not found" }, table)
handle_delete owner (some id) true table = delete_row owner id table
handle_delete owner (some id) false table =
    (record { status = 500; body = error "failed to revoke key" }, table)

module _ (canonical : String → Option String) (format_time : ℕ → String)
    (decoded_label : String → String) where
  abbrev pub summary_of : Row → Summary
  summary_of r = record {
    id = r.id;
    label = r.label;
    masked = mask r.key;
    created_at = format_time r.created_at;
  }

  abbrev pub created_of : Row → Created
  created_of r = record {
    id = r.id;
    label = r.label;
    masked = mask r.key;
    created_at = format_time r.created_at;
    key = r.key;
  }

  -- `Store.List`
  unfoldable pub list_rows : String → Table → List Summary
  unfolding newest_first
  list_rows owner table = map summary_of (newest_first (rows_of owner table))

  -- `Handler.List`
  abbrev pub handle_list : String → Bool → Table → Answer × Table
  handle_list owner up table =
      if up
      then (
        record { status = 200; body = listing (list_rows owner table) max_keys_per_user },
        table,
      )
      else (record { status = 500; body = error "failed to list keys" }, table)

  -- `Store.Create`, on a database that answers
  abbrev pub insert_under_cap : Row → Table → Answer × Table
  insert_under_cap r table =
      if ltb (length (rows_of r.owner table)) max_keys_per_user
      then (record { status = 201; body = created (created_of r) }, List.◌∷◌ r table)
      else (key_limit, table)

  -- The row that a call inserts.
  abbrev pub new_row : String → String → Call → Row
  new_row owner body c = record {
    id = c.id;
    key = c.key;
    label = create_label decoded_label body;
    owner = owner;
    created_at = c.now;
  }

  -- `Handler.Create`
  abbrev pub handle_create : String → String → Call → Table → Answer × Table
  handle_create owner body c table =
      if c.up
      then insert_under_cap (new_row owner body c) table
      else (record { status = 500; body = error "failed to create key" }, table)

  abbrev pub handle_request : String → Call → Request → Table → Answer × Table
  handle_request owner c list table = handle_list owner c.up table
  handle_request owner c (create body) table = handle_create owner body c table
  handle_request owner c (delete id) table = handle_delete owner (canonical id) c.up table

  abbrev pub handle_as : Option String → Call → Table → Answer × Table
  handle_as none c table = (unauthorized, table)
  handle_as (some owner) c table = handle_request owner c c.request table

  -- A call to the API.
  unfoldable pub handle : Call → Table → Answer × Table
  unfolding list_rows
  handle c table = handle_as c.user c table

  -- The answers to some calls, in their order, and the table that they leave.
  unfoldable pub run : Table → List Call → List Answer × Table
  unfolding handle
  run table List.[] = (List.[], table)
  run table (List.◌∷◌ c calls) =
      let (answer, table') = handle c table in
      let (answers, last) = run table' calls in (List.◌∷◌ answer answers, last)
