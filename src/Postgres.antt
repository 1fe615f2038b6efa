-- ===== src/Postgres.antt =====
-- The PostgreSQL backend (src/db/postgres.cpp): its statements on the tables are in `Postgres.Rows`,
-- here are the methods, each of which is one transaction. The tables have the columns of the SQLite
-- backend. What the server and libpqxx answer where a call fails is a parameter.
pub mod Rows
pub mod Upgrade
pub mod Recovery
pub mod Lookup
pub mod Lost
pub mod Kept
pub mod Denied
use dazeus_core.Base.{
  Bool, true, false, List, [], ◌∷◌, ◌++◌, Option, none, some, ◌⊎◌, inl, inr, if◌then◌else◌,
  is_empty,
}
use dazeus_core.Text.{Str, str_eq, lit}
use dazeus_core.Requests.{Outcome, returns, throws, crashes, Database}
use dazeus_core.Sqlite.Rows.{
  Property, Permission, Tables, select_permission, delete_property, delete_permission, select_keys,
}
use dazeus_core.Sqlite.{permission_of}
use Rows.{
  Prepared, find_table, find_property, remove_property, update_property, properties, add_permission,
  remove_permission, has_permission, find_values, upsert_property, insert_permission, table_names,
}

-- how a commit ends: where the connection breaks, nobody knows whether the changes are there
pub data Commit : Type 0 where
  committed : Commit
  refused : Str → Commit
  in_doubt : Bool → Str → Commit

-- What the server and libpqxx answer: the collation, and the texts of the exceptions. `fault` is the
-- failure of a statement on these parameters for another reason than a primary key.
pub record Server : Type 0 where
  pub order : Str → Str → Bool
  pub start : Option Str
  pub fault : Prepared → List Str → Tables → Option Str
  pub duplicate : Str
  pub unknown : Str → Str
  pub wrong_count : Str
  pub finish : Tables → Commit

-- the names that `bootstrapDB` gives to the statements
unfoldable pub bootstrap_names : List (Str × Prepared)
unfolding lit
bootstrap_names =
    (lit "find_table", find_table)
    ∷ (lit "find_property", find_property)
    ∷ (lit "remove_property", remove_property)
    ∷ (lit "update_property", update_property)
    ∷ (lit "properties", properties)
    ∷ (lit "add_permission", add_permission)
    ∷ (lit "remove_permission", remove_permission)
    ∷ (lit "has_permission", has_permission)
    ∷ []

unfoldable pub prepared_as : List (Str × Prepared) → Str → Option Prepared
prepared_as [] name = none
prepared_as ((known, statement) ∷ rest) name =
    let later = prepared_as rest name in if str_eq known name then some statement else later

-- the name that `hasPermission` uses: its first letter is U+1E25, three bytes in UTF-8
abbrev pub asked_name : Str
asked_name = 225 ∷ 184 ∷ 165 ∷ lit "as_permission"

-- an answer, or the exception that stands before it
abbrev pub unless : {A : Type 0} → Option Str → Outcome A → Outcome A
unless none answer = answer
unless (some msg) answer = throws msg

abbrev pub answered : {A : Type 0} → Str ⊎ A → Outcome A
answered (inl msg) = throws msg
answered (inr a) = returns a

abbrev pub first_text : List Str → Str
first_text [] = []
first_text (value ∷ _) = value

module _ (v : Server) where
  -- the table after an update, or the text of the broken primary key
  unfoldable pub updated : Tables → Option (List Property) → Str ⊎ (Tables × List Str)
  updated t none = inl v.duplicate
  updated t (some rows) = inr (record t { properties = rows }, [])

  -- a statement on its parameters: the tables and the column that is read, or the text of an error
  unfoldable pub effect : Prepared → List Str → Tables → Str ⊎ (Tables × List Str)
  unfolding updated find_values upsert_property insert_permission table_names
  effect find_table (name ∷ []) t = inr (t, table_names name)
  effect find_property (k ∷ n ∷ r ∷ s ∷ []) t = inr (t, find_values v.order k n r s t.properties)
  effect remove_property (k ∷ n ∷ r ∷ s ∷ []) t =
      inr (record t { properties = delete_property k n r s t.properties }, [])
  effect update_property (k ∷ value ∷ n ∷ r ∷ s ∷ []) t =
      updated t (upsert_property k value n r s t.properties)
  effect properties (prefix ∷ n ∷ r ∷ s ∷ []) t = inr (t, select_keys prefix n r s t.properties)
  effect add_permission (p ∷ n ∷ r ∷ s ∷ []) t =
      inr (record t { permissions = insert_permission (permission_of p n r s) t.permissions }, [])
  effect remove_permission (p ∷ n ∷ r ∷ s ∷ []) t =
      inr (record t { permissions = delete_permission (permission_of p n r s) t.permissions }, [])
  effect has_permission (p ∷ n ∷ r ∷ s ∷ []) t =
      inr (t, if select_permission (permission_of p n r s) t.permissions then p ∷ [] else [])
  effect statement values t = inl v.wrong_count

  -- a statement that the server is sent
  unfoldable pub send : List Str → Tables → Prepared → Outcome (Tables × List Str)
  unfolding effect
  send values t statement =
      unless (v.fault statement values t) (answered (effect statement values t))

  -- by the name of a statement
  unfoldable pub send_named :
      Str → List Str → Tables → Option Prepared → Outcome (Tables × List Str)
  unfolding send
  send_named name values t none = throws (v.unknown name)
  send_named name values t (some statement) = send values t statement

  -- `w.prepared(name)(…)….exec()` in a new transaction `w`
  unfoldable pub exec : Str → List Str → Tables → Outcome (Tables × List Str)
  unfolding send_named prepared_as bootstrap_names
  exec name values t = unless v.start (send_named name values t (prepared_as bootstrap_names name))

  -- a transaction that is not committed leaves the tables
  unfoldable pub reading :
      {A : Type 0} → Tables → Outcome (Tables × List Str) → (List Str → A) → Tables × Outcome A
  reading t (returns (t', column)) f = (t, returns (f column))
  reading t (throws why) f = (t, throws why)
  reading t (crashes why) f = (t, crashes why)

  -- `w.commit()`
  unfoldable pub end : Tables → Tables → Commit → Tables × Outcome (Unit {0})
  end t t' committed = (t', returns tt)
  end t t' (refused why) = (t, throws why)
  end t t' (in_doubt done why) = (if done then t' else t, throws why)

  unfoldable pub writing : Tables → Outcome (Tables × List Str) → Tables × Outcome Unit
  unfolding end
  writing t (returns (t', column)) = end t t' (v.finish t')
  writing t (throws why) = (t, throws why)
  writing t (crashes why) = (t, crashes why)

  unfoldable pub property : Tables → Str → Str → Str → Str → Tables × Outcome Str
  unfolding exec reading lit
  property t variable network receiver sender =
      reading t (exec (lit "find_property") (variable ∷ network ∷ receiver ∷ sender ∷ []) t)
        first_text

  unfoldable pub set_property : Tables → Str → Str → Str → Str → Str → Tables × Outcome Unit
  unfolding exec writing lit
  set_property t variable value network receiver sender =
      if is_empty value
      then writing t (exec (lit "remove_property") (variable ∷ network ∷ receiver ∷ sender ∷ []) t)
      else writing t
          (exec (lit "update_property") (variable ∷ value ∷ network ∷ receiver ∷ sender ∷ []) t)

  unfoldable pub property_keys : Tables → Str → Str → Str → Str → Tables × Outcome (List Str)
  unfolding exec reading lit
  property_keys t prefix network receiver sender =
      reading t (exec (lit "properties") (prefix ∷ network ∷ receiver ∷ sender ∷ []) t)
        (λ keys. keys)

  -- `hasPermission`
  unfoldable pub ask_permission : Tables → Str → Str → Str → Str → Bool → Tables × Outcome Bool
  unfolding exec reading lit
  ask_permission t name network receiver sender default_permission =
      reading t (exec asked_name (name ∷ network ∷ receiver ∷ sender ∷ []) t)
        (λ found. if is_empty found then default_permission else true)

  unfoldable pub unset_permission : Tables → Str → Str → Str → Str → Tables × Outcome Unit
  unfolding exec writing lit
  unset_permission t name network receiver sender =
      writing t (exec (lit "remove_permission") (name ∷ network ∷ receiver ∷ sender ∷ []) t)

  -- the permission that is given is not looked at
  unfoldable pub set_permission : Tables → Bool → Str → Str → Str → Str → Tables × Outcome Unit
  unfolding exec writing lit
  set_permission t permission name network receiver sender =
      writing t (exec (lit "add_permission") (name ∷ network ∷ receiver ∷ sender ∷ []) t)

  -- the class `PostgreSQLDatabase`, behind the interface of `Database`
  unfoldable pub postgres : Database Tables
  unfolding property set_property property_keys ask_permission unset_permission set_permission
  postgres = record {
    property = property;
    set_property = set_property;
    property_keys = property_keys;
    has_permission = ask_permission;
    unset_permission = unset_permission;
    set_permission = set_permission;
  }
