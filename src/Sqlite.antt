-- ===== src/Sqlite.antt =====
-- The SQLite backend (src/db/sqlite.cpp): its two tables and the statements on them are in
-- `Sqlite.Rows`, here are the methods that run the statements. What the C interface of SQLite
-- answers where a call fails is a parameter.
pub mod Rows
pub mod Upgrade
pub mod HalfDone
pub mod Closing
pub mod Ordered
pub mod Fitting
pub mod Scoped
pub mod Places
pub mod Stored
pub mod RoundTrip
pub mod Asked
pub mod Permitted
pub mod Keyed
use dazeus_core.Base.{
  ℕ, ◌+◌, Bool, true, false, List, [], ◌∷◌, ◌++◌, Option, none, some, if◌then◌else◌, is_empty,
}
use dazeus_core.Text.{Str, lit}
use dazeus_core.Text.Decimal.{decimal}
use dazeus_core.Json.{c_str}
use dazeus_core.Requests.{Outcome, returns, throws, crashes, Database}
use Rows.{
  Property, Permission, Tables, select_property, delete_property, replace_property, select_keys,
  select_permission, delete_permission, replace_permission,
}

-- the seven prepared statements
pub data Statement : Type 0 where
  find_property remove_property update_property properties : Statement
  add_permission remove_permission has_permission : Statement

-- Where a call fails: the error code and the text of `sqlite3_errmsg`. A `bind` is known by its
-- statement, its parameter and its value; a `step` by the tables that it finds and how many rows it
-- has given before.
pub record Faults : Type 0 where
  pub bind : Statement → ℕ → Str → Option (ℕ × Str)
  pub step : Statement → Tables → ℕ → Option (ℕ × Str)

abbrev pub ◌>>=◌ : {A B : Type 0} → Outcome A → (A → Outcome B) → Outcome B
returns a >>= f = f a
throws why >>= f = throws why
crashes why >>= f = crashes why

infixl 5 ◌>>=◌
-- the value of the row, read as a C string, or none
unfoldable pub first_value : Option Property → Str
unfolding c_str
first_value none = []
first_value (some row) = c_str row.value

abbrev pub parameters : Permission → List Str
parameters p = p.permission ∷ p.network ∷ p.receiver ∷ p.sender ∷ []

abbrev pub permission_of : Str → Str → Str → Str → Permission
permission_of name network receiver sender = record {
  permission = name;
  network = network;
  receiver = receiver;
  sender = sender;
}

-- a statement that changes the tables where it returns
unfoldable pub commit : Tables → Tables → Outcome (Unit {0}) → Tables × Outcome Unit
commit t changed (returns _) = (changed, returns tt)
commit t changed (throws why) = (t, throws why)
commit t changed (crashes why) = (t, crashes why)

module _ (f : Faults) where
  -- `tryBind`
  unfoldable pub try_bind : Statement → ℕ → Str → Outcome (Unit {0})
  unfolding lit
  try_bind statement i value = elim (f.bind statement i value) [
    | none ↦ returns tt
    | some (code, msg) ↦ throws (
        lit "Failed to bind parameter "
        ++ (decimal i
            ++ (lit " to query with error: "
                ++ (msg ++ (lit " (errorcode " ++ (decimal code ++ lit ")"))))))
  ]

  -- the parameters from the `i`-th on, one after the other
  unfoldable pub bind_all : Statement → ℕ → List Str → Outcome (Unit {0})
  unfolding try_bind
  bind_all statement i [] = returns tt
  bind_all statement i (value ∷ values) =
      try_bind statement i value >>= λ _. bind_all statement (i + 1) values

  -- a row of `sqlite3_step`, and the exception where it fails; the statement is reset in each case
  unfoldable pub step : Statement → Tables → ℕ → Outcome (Unit {0})
  unfolding lit
  step statement t rows = elim (f.step statement t rows) [
    | none ↦ returns tt
    | some (code, msg) ↦ throws (
        lit "Got an error while executing an SQL query (code "
        ++ (decimal code ++ (lit "): " ++ msg)))
  ]

  unfoldable pub property : Tables → Str → Str → Str → Str → Tables × Outcome Str
  unfolding bind_all step first_value
  property t variable network receiver sender = (
    t,
    bind_all find_property 1 (variable ∷ network ∷ receiver ∷ sender ∷ []) >>= λ _.
        step find_property t 0 >>= λ _.
        returns (first_value (select_property variable network receiver sender t.properties)),
  )

  -- an empty value removes the property; the statement for that has no second parameter
  unfoldable pub set_property : Tables → Str → Str → Str → Str → Str → Tables × Outcome Unit
  unfolding bind_all step commit
  set_property t variable value network receiver sender =
      let statement = if is_empty value then remove_property else update_property in
      let changed =
        if is_empty value
        then delete_property variable network receiver sender t.properties
        else replace_property
            (record {
              key = variable;
              value = value;
              network = network;
              receiver = receiver;
              sender = sender;
            })
            t.properties in
      commit t (record t { properties = changed })
        (bind_all statement 1 (variable ∷ value ∷ network ∷ receiver ∷ sender ∷ []) >>= λ _.
          step statement t 0)

  -- the loop over the rows
  unfoldable pub read_keys : Tables → ℕ → List Str → Outcome (List Str)
  unfolding step c_str
  read_keys t i [] = step properties t i >>= λ _. returns []
  read_keys t i (key ∷ keys) =
      step properties t i >>= λ _. read_keys t (i + 1) keys >>= λ rest. returns (c_str key ∷ rest)

  unfoldable pub property_keys : Tables → Str → Str → Str → Str → Tables × Outcome (List Str)
  unfolding bind_all read_keys
  property_keys t prefix network receiver sender = (
    t,
    bind_all properties 1 (prefix ∷ network ∷ receiver ∷ sender ∷ []) >>= λ _.
        read_keys t 0 (select_keys prefix network receiver sender t.properties),
  )

  unfoldable pub ask_permission : Tables → Permission → Bool → Outcome Bool
  unfolding bind_all step
  ask_permission t p default_permission = bind_all has_permission 1 (parameters p) >>= λ _.
      step has_permission t 0 >>= λ _.
      returns (if select_permission p t.permissions then true else default_permission)

  -- a statement that changes the permissions
  unfoldable pub change_permissions :
      Statement → Permission → List Permission → Tables → Tables × Outcome Unit
  unfolding bind_all step commit
  change_permissions statement p changed t =
      commit t (record t { permissions = changed })
        (bind_all statement 1 (parameters p) >>= λ _. step statement t 0)

  unfoldable pub unset_permission : Tables → Permission → Tables × Outcome Unit
  unfolding change_permissions
  unset_permission t p =
      change_permissions remove_permission p (delete_permission p t.permissions) t

  -- the permission that is given is not looked at
  unfoldable pub set_permission : Tables → Bool → Permission → Tables × Outcome Unit
  unfolding change_permissions
  set_permission t permission p =
      change_permissions add_permission p (replace_permission p t.permissions) t

  -- the class `SQLiteDatabase`, behind the interface of `Database`
  unfoldable pub sqlite : Database Tables
  unfolding property set_property property_keys ask_permission unset_permission set_permission
  sqlite = record {
    property = property;
    set_property = set_property;
    property_keys = property_keys;
    has_permission = λ t name network receiver sender d.
        (t, ask_permission t (permission_of name network receiver sender) d);
    unset_permission = λ t name network receiver sender.
        unset_permission t (permission_of name network receiver sender);
    set_permission = λ t permission name network receiver sender.
        set_permission t permission (permission_of name network receiver sender);
  }
