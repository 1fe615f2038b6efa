-- ===== src/Sqlite/Rows.antt =====
-- The two tables of the SQLite backend, and its SQL statements as functions on them
-- (src/db/sqlite.cpp, `bootstrapDB`). Texts are compared byte by byte, as SQLite's BINARY collation
-- does.
use dazeus_core.Base.{
  Bool, true, false, not, ◌&&◌, ◌||◌, List, [], ◌∷◌, ◌++◌, Option, none, some, if◌then◌else◌,
  is_empty, ◌==◌,
}
use dazeus_core.Text.{Str, str_eq, str_lt}

pub record Property : Type 0 where
  pub key : Str
  pub value : Str
  pub network : Str
  pub receiver : Str
  pub sender : Str

pub record Permission : Type 0 where
  pub permission : Str
  pub network : Str
  pub receiver : Str
  pub sender : Str

pub record Tables : Type 0 where
  pub properties : List Property
  pub permissions : List Permission

module _ {A : Type 0} where
  -- WHERE
  unfoldable pub keep : (A → Bool) → List A → List A
  keep p [] = []
  keep p (x ∷ xs) = if p x then x ∷ keep p xs else keep p xs

  -- ORDER BY … DESC LIMIT 1: a row that none of the later ones follows, by the order that is given
  unfoldable pub greatest : (A → A → Bool) → List A → Option A
  greatest lt [] = none
  greatest lt (x ∷ xs) = elim (greatest lt xs) [
    | none ↦ some x
    | some y ↦ some (if lt x y then y else x)
  ]

-- key, network, receiver and sender are the ones given: the primary key
unfoldable pub is_at : Str → Str → Str → Str → Property → Bool
is_at key network receiver sender row =
    str_eq row.key key
    && (str_eq row.network network && (str_eq row.receiver receiver && str_eq row.sender sender))

-- the condition of find_property
unfoldable pub fits : Str → Str → Bool
fits wanted found = str_eq found wanted || is_empty found

unfoldable pub is_found : Str → Str → Str → Str → Property → Bool
unfolding fits
is_found key network receiver sender row =
    str_eq row.key key
    && (fits network row.network && (fits receiver row.receiver && fits sender row.sender))

-- the order by network, receiver and sender
unfoldable pub precedes : Property → Property → Bool
precedes x y =
    if str_eq x.network y.network
    then (if str_eq x.receiver y.receiver
        then str_lt x.sender y.sender
        else str_lt x.receiver y.receiver)
    else str_lt x.network y.network

-- find_property
unfoldable pub select_property : Str → Str → Str → Str → List Property → Option Property
unfolding is_found precedes keep greatest
select_property key network receiver sender rows =
    greatest precedes (keep (is_found key network receiver sender) rows)

-- remove_property
unfoldable pub delete_property : Str → Str → Str → Str → List Property → List Property
unfolding keep is_at
delete_property key network receiver sender rows =
    keep (λ row. not (is_at key network receiver sender row)) rows

-- update_property: INSERT OR REPLACE takes out the row with the same primary key
unfoldable pub replace_property : Property → List Property → List Property
unfolding delete_property
replace_property row rows =
    delete_property row.key row.network row.receiver row.sender rows ++ row ∷ []

-- `SUBSTR(key, 1, LENGTH(prefix)) = prefix`, for texts without a NUL
unfoldable pub starts : Str → Str → Bool
starts [] key = true
starts (c ∷ prefix) [] = false
starts (c ∷ prefix) (k ∷ key) = c == k && starts prefix key

-- properties
unfoldable pub select_keys : Str → Str → Str → Str → List Property → List Str
unfolding starts
select_keys prefix network receiver sender [] = []
select_keys prefix network receiver sender (row ∷ rows) =
    let later = select_keys prefix network receiver sender rows in
    if starts prefix row.key
      && (str_eq row.network network && (str_eq row.receiver receiver && str_eq row.sender sender))
    then row.key ∷ later
    else later

unfoldable pub is_permission : Permission → Permission → Bool
is_permission p row =
    str_eq row.permission p.permission
    && (str_eq row.network p.network
        && (str_eq row.receiver p.receiver && str_eq row.sender p.sender))

-- has_permission: whether there is a row
unfoldable pub select_permission : Permission → List Permission → Bool
unfolding is_permission
select_permission p [] = false
select_permission p (row ∷ rows) = is_permission p row || select_permission p rows

-- remove_permission
unfoldable pub delete_permission : Permission → List Permission → List Permission
unfolding keep is_permission
delete_permission p rows = keep (λ row. not (is_permission p row)) rows

-- add_permission
unfoldable pub replace_permission : Permission → List Permission → List Permission
unfolding delete_permission
replace_permission p rows = delete_permission p rows ++ p ∷ []
