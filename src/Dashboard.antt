-- ===== src/Dashboard.antt =====
-- The dashboard of API keys:
-- frontend/src/app/doc/keys/_components/api-keys-manager.tsx. Its state is the component's, with
-- the requests that it awaits. An event is what the user does, or an answer that comes in. Where a
-- control is disabled or closed, or no such request is awaited, the event cannot happen.
pub mod Runs
pub mod Cap
pub mod Flight
pub mod Ids
pub mod Secret
pub mod Labels
pub mod Screen
pub mod Server
use Prim.Native.String.{[], ◌∷◌}
use go_mcp_server.Base.{
  String, ◌<>◌, List, code, Option, none, some, ℕ, Bool, true, false, not, ◌+◌,
}
use go_mcp_server.Base.{
  ◌&&◌, ◌||◌, leb, ltb, if◌then◌else◌, keep, length, ◌==◌, trim, ◌++◌, is_empty,
}
use go_mcp_server.Json.{quote}
use mathlib.Core.Option.{get_or}

-- `ApiKeySummary`
pub record Summary : Type 0 where
  pub id : String
  pub label : String
  pub masked : String
  pub created_at : String

-- `ApiKeySummary & { key: string }`
pub record Created : Type 0 where
  pub id : String
  pub label : String
  pub masked : String
  pub created_at : String
  pub key : String

-- The JSON text of a response, as `res.json()` reads it.
pub data Data : Type 0 where
  not_json : Data
  null_data : Data
  object : (error : Option String) (key : Option Created) → Data

-- How an awaited `fetch` ends: rejected, or with `res.ok` and a body.
pub data Reply : Type 0 where
  rejected : Reply
  response : (ok : Bool) (data_ : Data) → Reply

pub data Toast : Type 0 where
  error success : (text : String) → Toast

pub record State : Type 0 where
  pub keys : List Summary
  pub create_open : Bool
  pub label : String
  pub creating : Bool
  pub revealed : Option String
  pub pending_delete : Option Summary
  pub deleting : Bool
  -- the bodies of the POSTs and the keys of the DELETEs that are awaited, and the toasts shown
  pub posts : List String
  pub deletes : List Summary
  pub toasts : List Toast

unfoldable pub initial : List Summary → State
initial initial_keys = record {
  keys = initial_keys;
  create_open = false;
  label = "";
  creating = false;
  revealed = none;
  pending_delete = none;
  deleting = false;
  posts = List.[];
  deletes = List.[];
  toasts = List.[];
}

-- `keys.length >= max`
abbrev pub at_limit : ℕ → State → Bool
at_limit max s = leb max (length s.keys)

abbrev pub toast : Toast → State → State
toast t s = record s { toasts = List.◌∷◌ t s.toasts }

-- `JSON.stringify({ label: label.trim() })`
abbrev pub post_body : String → String
post_body label = "{\"label\":" <> quote (trim label) <> "}"

-- `handleCreate`, up to its `fetch`.
unfoldable pub begin_create : State → State
begin_create s = record s {
  creating = true;
  posts = s.posts ++ List.◌∷◌ (post_body s.label) List.[];
}

abbrev pub summary_of : Created → Summary
summary_of c = record { id = c.id; label = c.label; masked = c.masked; created_at = c.created_at }

abbrev create_failed : State → State
create_failed s = toast (error "Network error — could not create key") s

abbrev key_created : Created → State → State
key_created c s = record s {
  keys = List.◌∷◌ (summary_of c) s.keys;
  create_open = false;
  label = "";
  revealed = some c.key;
}

-- The rest of the `try` of `handleCreate`, and its `catch`. A member of `null` or of a missing key
-- throws, and so does a body that is not JSON.
unfoldable pub create_answered : Reply → State → State
create_answered rejected s = create_failed s
create_answered (response ok not_json) s = create_failed s
create_answered (response ok null_data) s = create_failed s
create_answered (response false (object e k)) s = toast (error (get_or e "Failed to create key")) s
create_answered (response true (object e none)) s = create_failed s
create_answered (response true (object e (some c))) s = key_created c s

-- `handleCreate` from the answer of its `fetch` on, with its `finally`.
unfoldable pub end_create : Reply → State → State
unfolding create_answered
end_create reply s = record (create_answered reply s) { creating = false }

-- `handleDelete`, up to its `fetch`.
unfoldable pub begin_delete : State → State
begin_delete s = elim s.pending_delete [
  | none ↦ s
  | some k ↦ record s { deleting = true; deletes = s.deletes ++ List.◌∷◌ k List.[] }
]

abbrev delete_failed : State → State
delete_failed s = toast (error "Network error — could not revoke key") s

abbrev pub other_than : String → Summary → Bool
other_than id k = not (k.id == id)

-- The rest of the `try` of `handleDelete` and its `catch`; the key is the one that it was called
-- for. A refusal's body that is not JSON is read as `{}`.
unfoldable pub delete_answered : Summary → Reply → State → State
delete_answered k rejected s = delete_failed s
delete_answered k (response true d) s =
    toast (success "API key revoked")
      (record s { keys = keep (other_than k.id) s.keys; pending_delete = none })
delete_answered k (response false not_json) s = toast (error "Failed to revoke key") s
delete_answered k (response false null_data) s = delete_failed s
delete_answered k (response false (object e c)) s =
    toast (error (get_or e "Failed to revoke key")) s

-- `handleDelete` from the answer of its `fetch` on, with its `finally`.
unfoldable pub end_delete : Summary → Reply → State → State
unfolding delete_answered
end_delete k reply s = record (delete_answered k reply s) { deleting = false }

-- The length of a text in UTF-16 code units.
abbrev pub utf16_length : String → ℕ
utf16_length [] = 0
utf16_length (c ∷ s) = (if leb 0x10000 (code c) then 2 else 1) + utf16_length s

pub data Event : Type 0 where
  -- the buttons “Create key” of the header and of the empty list
  press_create press_create_empty : Event
  -- the create dialog: typing, Enter, its buttons, and its closing by the library
  type_label : (text : String) → Event
  press_enter press_submit press_cancel close_create : Event
  -- the reveal dialog, by its button or by the library
  close_reveal : Event
  -- the “Revoke” of a key, and the confirmation: its buttons, and its closing by the library
  press_revoke : (k : Summary) → Event
  press_confirm press_keep close_confirm : Event
  -- the answers of the first awaited POST and of the first awaited DELETE
  post_ends delete_ends : (reply : Reply) → Event

-- The event happens where its control is there and enabled.
abbrev pub when : Bool → State → Option State
when test s = if test then some s else none

abbrev pub lists : List Summary → Summary → Bool
lists List.[] k = false
lists (List.◌∷◌ j ks) k =
    (j.id == k.id && j.label == k.label && j.masked == k.masked && j.created_at == k.created_at)
    || lists ks k

abbrev pub is_some {ℓ} : {A : Type ℓ} → Option A → Bool
is_some none = false
is_some (some _) = true

abbrev pub no_keys : List Summary → Bool
no_keys List.[] = true
no_keys (List.◌∷◌ _ _) = false

-- What an event does; `max` is the cap that the page was given.
unfoldable pub step : ℕ → State → Event → Option State
unfolding begin_create end_create begin_delete end_delete
step max s press_create = when (not (at_limit max s)) (record s { create_open = true })
step max s press_create_empty = when (no_keys s.keys) (record s { create_open = true })
step max s (type_label text) =
    when (s.create_open && leb (utf16_length text) 60) (record s { label = text })
step max s press_enter = when s.create_open (if s.creating then s else begin_create s)
step max s press_submit = when (s.create_open && not s.creating) (begin_create s)
step max s press_cancel = when (s.create_open && not s.creating) (record s { create_open = false })
step max s close_create = when s.create_open (record s { create_open = false })
step max s close_reveal = when (is_some s.revealed) (record s { revealed = none })
step max s (press_revoke k) = when (lists s.keys k) (record s { pending_delete = some k })
step max s press_confirm = when (is_some s.pending_delete && not s.deleting) (begin_delete s)
step max s press_keep =
    when (is_some s.pending_delete && not s.deleting) (record s { pending_delete = none })
step max s close_confirm = when (is_some s.pending_delete) (record s { pending_delete = none })
step max s (post_ends reply) = elim s.posts [
  | List.[] ↦ none
  | List.◌∷◌ _ posts ↦ some (end_create reply (record s { posts = posts }))
]
step max s (delete_ends reply) = elim s.deletes [
  | List.[] ↦ none
  | List.◌∷◌ k deletes ↦ some (end_delete k reply (record s { deletes = deletes }))
]

-- A run of the component.
unfoldable pub run : ℕ → State → List Event → Option State
unfolding step
run max s List.[] = some s
run max s (List.◌∷◌ e es) = elim (step max s e) [ none ↦ none | some s' ↦ run max s' es ]
