-- ===== src/Dashboard/Screen.antt =====
-- What the dashboard shows in a state, and what a user can do there: the tree that `ApiKeysManager`
-- of frontend/src/app/doc/keys/_components/api-keys-manager.tsx returns. A dialog of the UI kit
-- shows its content while it is open, and can then be closed; a disabled button does nothing.
-- `format_date` is `dateFmt.format(new Date(…))`.
pub mod Offers
pub mod Controls
pub mod Redacted
use go_mcp_server.Base.{
  String, ◌<>◌, ℕ, List, [], ◌∷◌, Option, none, some, Bool, true, false, not, ◌&&◌, ◌||◌, leb,
  is_empty, if◌then◌else◌, ◌==◌,
}
use go_mcp_server.Json.{decimal}
use go_mcp_server.Dashboard.{
  State, Summary, Event, press_create, press_create_empty, type_label, press_enter, press_submit,
  press_cancel, close_create, close_reveal, press_revoke, press_confirm, press_keep, close_confirm,
  at_limit, is_some, utf16_length,
}

mutual
  pub data Tree : Type 0 where
    text : String → Tree
    node : String → Trees → Tree
    button : (disabled : Bool) → (on_click : Event) → Trees → Tree
    -- an element with a `title`, where it has one
    titled : (title : Option String) → Tree → Tree
    -- the field of the label; `sends` says whether Enter in it creates a key
    label_field : (id placeholder value : String) → (max_length : ℕ) → (sends : Bool) → Tree
    -- the component's own `CopyButton`
    copy_button : (value label : String) → Tree
    dialog : (open_ : Bool) → (on_close : Event) → Trees → Tree

  pub data Trees : Type 0 where
    nil : Trees
    cons : Tree → Trees → Trees

abbrev pub trees : List Tree → Trees
trees [] = nil
trees (t ∷ ts) = cons t (trees ts)

abbrev pub el : String → List Tree → Tree
el tag children = node tag (trees children)

abbrev mark : String → Tree
mark name = el name []

abbrev code_of : String → Tree
code_of t = el "code" (text t ∷ [])

abbrev pub or_else : String → String → String
or_else t other = if is_empty t then other else t

-- `k.label || <span>Untitled key</span>`
abbrev key_title : String → Tree
key_title t = if is_empty t then el "span" (text "Untitled key" ∷ []) else text t

abbrev pub key_card : (String → String) → Summary → Tree
key_card format_date k = el "Card" (
    el "CardHeader" (
      el "CardTitle" (mark "KeyRound" ∷ key_title k.label ∷ [])
      ∷ el "CardDescription" (text k.masked ∷ [])
      ∷ [])
    ∷ el "CardContent" (
        el "span" (text "Created " ∷ text (format_date k.created_at) ∷ [])
        ∷ button false (press_revoke k) (trees (mark "Trash2" ∷ text "Revoke" ∷ []))
        ∷ [])
    ∷ [])

abbrev pub key_cards : (String → String) → List Summary → Trees
key_cards format_date [] = nil
key_cards format_date (k ∷ ks) = cons (key_card format_date k) (key_cards format_date ks)

-- `keys.length === 0 ? … : …`
abbrev pub key_list : (String → String) → List Summary → Tree
key_list format_date [] = el "Empty" (
    el "EmptyHeader" (
      el "EmptyMedia" (mark "KeyRound" ∷ [])
      ∷ el "EmptyTitle" (text "No API keys yet" ∷ [])
      ∷ el "EmptyDescription"
          (text "Create your first key to start connecting agents to the MCP server." ∷ [])
      ∷ [])
    ∷ el "EmptyContent"
        (button false press_create_empty (trees (mark "Plus" ∷ text "Create key" ∷ [])) ∷ [])
    ∷ [])
key_list format_date (k ∷ ks) = node "div" (key_cards format_date (k ∷ ks))

-- ``title={atLimit ? `Limit of ${max} keys reached` : undefined}``
abbrev pub limit_title : ℕ → Bool → Option String
limit_title max full = if full then some ("Limit of " <> (decimal max <> " keys reached")) else none

abbrev pub limit_note : ℕ → Bool → Tree
limit_note max full =
    if full
    then el "div" (
        mark "TriangleAlert"
        ∷ text "You've reached the limit of "
        ∷ text (decimal max)
        ∷ text " keys. Revoke one to create another."
        ∷ [])
    else mark ""

-- `busy && <Loader2 />`
abbrev pub spinner : Bool → Tree
spinner busy = if busy then mark "Loader2" else mark ""

abbrev pub create_dialog : State → Tree
create_dialog s = dialog s.create_open close_create (
    trees (
      el "DialogHeader" (
        el "DialogTitle" (text "Create API key" ∷ [])
        ∷ el "DialogDescription" (
            text
              "Give the key a name so you can recognise it later. The secret is shown only once, right after you create it."
            ∷ [])
        ∷ [])
      ∷ el "div" (
          el "Label" (text "Name (optional)" ∷ [])
          ∷ label_field "key-label" "e.g. Laptop, CI, Claude Desktop" s.label 60 (not s.creating)
          ∷ [])
      ∷ el "DialogFooter" (
          button s.creating press_cancel (trees (text "Cancel" ∷ []))
          ∷ button s.creating press_submit (trees (spinner s.creating ∷ text "Create key" ∷ []))
          ∷ [])
      ∷ []))

-- `{revealed}`, and `revealed && <CopyButton … />`
abbrev pub secret : Option String → List Tree
secret none = el "code" [] ∷ []
secret (some key) = code_of key ∷ (if is_empty key then [] else copy_button key "API key" ∷ [])

abbrev pub reveal_dialog : String → State → Tree
reveal_dialog base s = dialog (is_some s.revealed) close_reveal (
    trees (
      el "DialogHeader" (
        el "DialogTitle" (mark "Check" ∷ text "API key created" ∷ [])
        ∷ el "DialogDescription"
            (text "Copy your key now — for your security it won't be shown again." ∷ [])
        ∷ [])
      ∷ el "div" (
          el "div" (secret s.revealed)
          ∷ el "div" (
              mark "TriangleAlert"
              ∷ el "span" (
                  text
                    "Store it in your secrets manager now. If you lose it, revoke this key and create a new one."
                  ∷ [])
              ∷ [])
          ∷ el "div" (
              text "Send it as the"
              ∷ text " "
              ∷ code_of "X-API-Key"
              ∷ text " "
              ∷ text "header to"
              ∷ text " "
              ∷ code_of base
              ∷ text "."
              ∷ [])
          ∷ [])
      ∷ el "DialogFooter" (button false close_reveal (trees (text "Done" ∷ [])) ∷ [])
      ∷ []))

-- `pendingDelete?.label || "this key"`
abbrev pub pending_label : Option Summary → String
pending_label none = "this key"
pending_label (some k) = or_else k.label "this key"

abbrev pub confirm_dialog : State → Tree
confirm_dialog s = dialog (is_some s.pending_delete) close_confirm (
    trees (
      el "AlertDialogHeader" (
        el "AlertDialogTitle" (text "Revoke this API key?" ∷ [])
        ∷ el "AlertDialogDescription" (
            text "Anything using"
            ∷ text " "
            ∷ el "span" (text (pending_label s.pending_delete) ∷ [])
            ∷ text " "
            ∷ text
                "will immediately lose access, and its stored memories are deleted. This can't be undone."
            ∷ [])
        ∷ [])
      ∷ el "AlertDialogFooter" (
          button s.deleting press_keep (trees (text "Cancel" ∷ []))
          ∷ button s.deleting press_confirm (trees (spinner s.deleting ∷ text "Revoke key" ∷ []))
          ∷ [])
      ∷ []))

-- What `ApiKeysManager` returns; `base` is `MCP_BASE_URL`.
unfoldable pub screen : (String → String) → String → ℕ → State → Tree
screen format_date base max s = el "div" (
    el "div" (
      el "div" (
        el "h1" (text "API keys" ∷ [])
        ∷ el "p" (
            text "Use a key as the"
            ∷ text " "
            ∷ code_of "X-API-Key"
            ∷ text " "
            ∷ text "header when connecting to the MCP server. You can hold up to "
            ∷ text (decimal max)
            ∷ text " "
            ∷ text "keys."
            ∷ [])
        ∷ [])
      ∷ titled (limit_title max (at_limit max s))
          (button (at_limit max s) press_create (trees (mark "Plus" ∷ text "Create key" ∷ [])))
      ∷ [])
    ∷ limit_note max (at_limit max s)
    ∷ key_list format_date s.keys
    ∷ create_dialog s
    ∷ reveal_dialog base s
    ∷ confirm_dialog s
    ∷ [])
