-- ===== src/Mongo/Permissions.antt =====
-- The permissions of the MongoDB backend, its connection, and the backend behind the interface of the
-- database (src/db/mongo.cpp).
use dazeus_core.Base.{Bool, not, List, [], ◌∷◌, ◌++◌, Option, none, some, if◌then◌else◌, is_empty}
use dazeus_core.Text.{Str, lit}
use dazeus_core.Json.{c_str}
use dazeus_core.Requests.{Outcome, returns, throws, Database}
use dazeus_core.Sqlite.Rows.{keep}
use dazeus_core.Mongo.Documents.{null, text, boolean, Document, Selector, field, selects, upsert}
use dazeus_core.Mongo.{
  Store, Driver, a_text, a_null, get_boolean, packet, read_one, property, set_property,
  property_keys,
}

-- the permission of a name and a network, and a channel and a sender that may be null
unfoldable pub permission_selector : Str → Str → Option Str → Option Str → Selector
unfolding lit c_str
permission_selector name network channel sender =
    a_text (lit "name") name
    ∷ a_text (lit "network") network
    ∷ elim channel [ none ↦ a_null (lit "channel") | some c ↦ a_text (lit "channel") c ]
    ∷ elim sender [ none ↦ a_null (lit "sender") | some s ↦ a_text (lit "sender") s ]
    ∷ []

abbrev pub if_given : Str → Option Str
if_given s = if is_empty s then none else some s

-- the document that stands for a permission
unfoldable pub permission_document : Str → Str → Option Str → Option Str → Bool → Document
unfolding lit c_str
permission_document name network channel sender permission =
    (lit "name", text (c_str name))
    ∷ (lit "network", text (c_str network))
    ∷ (lit "permission", boolean permission)
    ∷ elim channel [ none ↦ (lit "channel", null) | some c ↦ (lit "channel", text (c_str c)) ]
    ∷ elim sender [ none ↦ (lit "sender", null) | some s ↦ (lit "sender", text (c_str s)) ]
    ∷ []

-- `PermSelectMode`, in the order of the loop
pub data Mode : Type 0 where
  all sender_only channel_only network_only : Mode

abbrev pub modes : List Mode
modes = all ∷ sender_only ∷ channel_only ∷ network_only ∷ []

-- the selector of a mode; a channel and a sender that are asked for are texts, also empty ones
unfoldable pub mode_selector : Mode → Str → Str → Str → Str → Selector
unfolding permission_selector
mode_selector all name network channel sender =
    permission_selector name network (some channel) (some sender)
mode_selector sender_only name network channel sender =
    permission_selector name network none (some sender)
mode_selector channel_only name network channel sender =
    permission_selector name network (some channel) none
mode_selector network_only name network channel sender = permission_selector name network none none

abbrev pub selectors : List Mode → Str → Str → Str → Str → List Selector
selectors [] name network channel sender = []
selectors (mode ∷ rest) name network channel sender =
    mode_selector mode name network channel sender ∷ selectors rest name network channel sender

-- the documents of a query with a limit of one
abbrev pub first_of : List Document → List Document
first_of [] = []
first_of (x ∷ _) = x ∷ []

module _ (d : Driver) where
  -- what a mode answers, and the later modes where there is no packet
  unfoldable pub permission_in : Selector → Option (List Document) → Outcome Bool → Outcome Bool
  unfolding read_one get_boolean field lit
  permission_in selector none later = later
  permission_in selector (some documents) later =
      read_one d selector
        (λ x. get_boolean (field (lit "permission") x) (lit "Failed to retrieve data from cursor"))
        documents

  -- the loop over the modes
  unfoldable pub ask_modes : Store → List Selector → Bool → Outcome Bool
  unfolding packet keep selects permission_in
  ask_modes t [] default_permission = returns default_permission
  ask_modes t (selector ∷ selectors) default_permission =
      permission_in selector
        (packet d selector (first_of (keep (selects d.matches selector) t.permissions)))
        (ask_modes t selectors default_permission)

  -- `hasPermission`
  unfoldable pub ask_permission : Store → Str → Str → Str → Str → Bool → Store × Outcome Bool
  unfolding ask_modes mode_selector
  ask_permission t name network channel sender default_permission =
      (t, ask_modes t (selectors modes name network channel sender) default_permission)

  unfoldable pub delete_permission : Store → Selector → Store × Outcome (Unit {0})
  unfolding keep selects lit
  delete_permission t selector =
      if d.delete_fails selector then (t, throws (lit "Failed to delete property")) else (
        record t { permissions = keep (λ x. not (selects d.matches selector x)) t.permissions },
        returns tt,
      )

  unfoldable pub unset_permission : Store → Str → Str → Str → Str → Store × Outcome Unit
  unfolding delete_permission permission_selector
  unset_permission t name network channel sender =
      delete_permission t (permission_selector name network (if_given channel) (if_given sender))

  -- the document that is selected is replaced
  unfoldable pub store_permission : Store → Selector → Document → Store × Outcome (Unit {0})
  unfolding upsert selects lit
  store_permission t selector document =
      if d.update_fails selector then (t, throws (lit "Failed to update permission")) else (
        record t {
          permissions = upsert (selects d.matches selector) (λ x. document) document t.permissions;
        },
        returns tt,
      )

  unfoldable pub set_permission : Store → Bool → Str → Str → Str → Str → Store × Outcome Unit
  unfolding store_permission permission_selector permission_document
  set_permission t permission name network channel sender =
      store_permission t (permission_selector name network (if_given channel) (if_given sender))
        (permission_document name network (if_given channel) (if_given sender) permission)

  -- `open`
  unfoldable pub open_mongo : Outcome (Unit {0})
  unfolding lit
  open_mongo =
      if not d.connects
      then throws (lit "Failed to connect to database: " ++ d.error_text)
      else if not d.reconnects
      then throws (lit "Failed to set autoreconnect")
      else if not d.indexes
      then throws (lit "Failed to create property index")
      else returns tt

  -- the class `MongoDatabase`, behind the interface of `Database`
  unfoldable pub mongo : Database Store
  unfolding property set_property property_keys ask_permission unset_permission set_permission
  mongo = record {
    property = property d;
    set_property = set_property d;
    property_keys = property_keys d;
    has_permission = ask_permission;
    unset_permission = unset_permission;
    set_permission = set_permission;
  }
