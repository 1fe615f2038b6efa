-- ===== src/Postgres/Rows.antt =====
-- The SQL statements of the PostgreSQL backend as functions on the rows (src/db/postgres.cpp,
-- `bootstrapDB`). Texts have no NUL, which PostgreSQL does not store.
use dazeus_core.Base.{Bool, ◌&&◌, List, [], ◌∷◌, ◌++◌, map, Option, none, some, if◌then◌else◌}
use dazeus_core.Text.{Str, str_eq, is, lit}
use dazeus_core.Sqlite.Rows.{
  Property, Permission, keep, greatest, is_at, is_found, select_permission,
}

-- the eight prepared statements
pub data Prepared : Type 0 where
  find_table find_property remove_property update_property : Prepared
  properties add_permission remove_permission has_permission : Prepared

-- the tables that `open` has made
unfoldable pub table_names : Str → List Str
unfolding is lit
table_names name =
    if is name "dazeus_properties"
    then name ∷ []
    else if is name "dazeus_permissions"
    then name ∷ []
    else []

-- the order by network, receiver and sender, for a collation
unfoldable pub precedes_in : (Str → Str → Bool) → Property → Property → Bool
precedes_in order x y =
    if str_eq x.network y.network
    then (if str_eq x.receiver y.receiver
        then order x.sender y.sender
        else order x.receiver y.receiver)
    else order x.network y.network

-- find_property: the one row, if there is one. Where two rows tie, the one that is stored first is
-- taken, which is one of those that the server may take.
unfoldable pub find_row :
    (Str → Str → Bool) → Str → Str → Str → Str → List Property → Option Property
unfolding keep greatest is_found precedes_in
find_row order key network receiver sender rows =
    greatest (precedes_in order) (keep (is_found key network receiver sender) rows)

abbrev pub value_of : Option Property → List Str
value_of none = []
value_of (some row) = row.value ∷ []

unfoldable pub find_values : (Str → Str → Bool) → Str → Str → Str → Str → List Property → List Str
unfolding find_row
find_values order key network receiver sender rows =
    value_of (find_row order key network receiver sender rows)

-- the row that update_property inserts: its SELECT lists the sender before the receiver
unfoldable pub inserted : Str → Str → Str → Str → Str → Property
inserted key value network receiver sender = record {
  key = key;
  value = value;
  network = network;
  receiver = sender;
  sender = receiver;
}

-- the UPDATE
unfoldable pub update_value : Str → Str → Str → Str → Str → Property → Property
unfolding is_at
update_value key value network receiver sender row =
    if is_at key network receiver sender row then record row { value = value } else row

-- the primary key is made of all the columns
unfoldable pub is_same : Property → Property → Bool
unfolding is_at
is_same x row = is_at x.key x.network x.receiver x.sender row && str_eq row.value x.value

-- INSERT, or none where the primary key forbids it
unfoldable pub insert_property : Property → List Property → List Property → Option (List Property)
insert_property row rows [] = some (rows ++ row ∷ [])
insert_property row rows (old ∷ _) = none

-- update_property, by the rows that the UPDATE finds: two that get the same value break the primary
-- key
unfoldable pub upsert :
    Str → Str → Str → Str → Str → List Property → List Property → Option (List Property)
unfolding keep inserted is_same insert_property update_value
upsert key value network receiver sender rows [] =
    let row = inserted key value network receiver sender in
    insert_property row rows (keep (is_same row) rows)
upsert key value network receiver sender rows (old ∷ []) =
    some (map (update_value key value network receiver sender) rows)
upsert key value network receiver sender rows (old ∷ other ∷ _) = none

unfoldable pub upsert_property :
    Str → Str → Str → Str → Str → List Property → Option (List Property)
unfolding keep is_at upsert
upsert_property key value network receiver sender rows =
    upsert key value network receiver sender rows (keep (is_at key network receiver sender) rows)

-- add_permission: INSERT where it is not there
unfoldable pub insert_permission : Permission → List Permission → List Permission
unfolding select_permission
insert_permission p rows = if select_permission p rows then rows else rows ++ p ∷ []
