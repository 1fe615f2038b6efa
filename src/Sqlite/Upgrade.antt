-- ===== src/Sqlite/Upgrade.antt =====
-- The opening of the SQLite database and the upgrade of its tables (src/db/sqlite.cpp, `open`,
-- `upgradeDB` and `bootstrapDB`). What is printed is left out.
use dazeus_core.Base.{
  ℕ, ◌+◌, Bool, true, false, List, [], ◌∷◌, ◌++◌, drop, Option, none, some, ◌⊎◌, inl, inr,
  if◌then◌else◌, ltb,
}
use dazeus_core.Int.{ℤ, pos, negsuc}
use dazeus_core.Text.{Str, lit, str_eq}
use dazeus_core.Text.Decimal.{decimal}
use dazeus_core.Json.{c_str}
use dazeus_core.Run.{undefined_behaviour, uncaught_exception}
use dazeus_core.Requests.{Outcome, returns, throws, crashes}
use dazeus_core.Sqlite.Rows.{Property, Permission, keep, replace_property}

-- the tables that the file has
pub record File : Type 0 where
  pub properties : Option (List Property)
  pub permissions : Option (List Permission)

-- what `sqlite3_exec` is called for
pub data Query : Type 0 where
  find_table find_version create_properties create_permissions store_version : Query

-- the tables of the prepared statements, and their texts by their place in `bootstrapDB`
pub data Table : Type 0 where
  dazeus_properties dazeus_permissions : Table

-- What SQLite and the standard library answer. `open_fails` has the code and the text of a failure,
-- `exec` and `prepare` its text. `version` is the row of a SELECT with LIMIT 1 and no order. `stoi`
-- is none where `std::stoi` throws.
pub record Engine : Type 0 where
  pub open_fails : Option (ℕ × Str)
  pub exec : Query → File → Option Str
  pub exists_already : Table → Str
  pub is_missing : Table → Str
  pub prepare : ℕ → Option Str
  pub version : Property → List Property → Property
  pub stoi : Str → Option ℤ

unfoldable pub is_version : Property → Bool
unfolding lit
is_version row = str_eq row.key (lit "dazeus_version")

abbrev version_row : Property
version_row = record {
  key = lit "dazeus_version";
  value = decimal 2;
  network = [];
  receiver = [];
  sender = [];
}

unfoldable pub not_prepared : Str → Outcome (Unit {0})
unfolding lit
not_prepared msg = throws (lit "Failed to prepare SQL statement, got an error: " ++ msg)

module _ (e : Engine) where
  -- what a statement does to the file, where nothing fails but the statement itself
  unfoldable pub effect : Query → File → Str ⊎ File
  unfolding lit replace_property
  effect find_table file = inr file
  effect find_version file = inr file
  effect create_properties file = elim file.properties [
    | none ↦ inr (record file { properties = some [] })
    | some rows ↦ inl (e.exists_already dazeus_properties)
  ]
  effect create_permissions file = elim file.permissions [
    | none ↦ inr (record file { permissions = some [] })
    | some rows ↦ inl (e.exists_already dazeus_permissions)
  ]
  effect store_version file = elim file.properties [
    | none ↦ inl (e.is_missing dazeus_properties)
    | some rows ↦ inr (record file { properties = some (replace_property version_row rows) })
  ]

  -- `sqlite3_exec`: the text of the failure, or the file afterwards
  unfoldable pub execute : Query → File → Str ⊎ File
  unfolding effect
  execute query file = elim (e.exec query file) [ none ↦ effect query file | some msg ↦ inl msg ]

  -- `std::stoi(values[0])`; its exceptions are not caught
  unfoldable pub version_of : List Property → Outcome ℤ
  unfolding c_str
  version_of [] = returns (pos 0)
  version_of (row ∷ rows) = elim (e.stoi (c_str ((e.version row rows).value))) [
    | none ↦ crashes uncaught_exception
    | some n ↦ returns n
  ]

  -- the error code of this query is not looked at
  unfoldable pub read_version : File → Outcome ℤ
  unfolding keep is_version version_of execute
  read_version file = elim file.properties [
    | none ↦ returns (pos 0)
    | some rows ↦ elim (execute find_version file) [
      | inl msg ↦ returns (pos 0)
      | inr _ ↦ version_of (keep is_version rows)
    ]
  ]

  -- the loop over the upgrades that are left, from the `i`-th on
  unfoldable pub run_upgrades : ℕ → List Query → File → File × Outcome (Unit {0})
  unfolding execute lit
  run_upgrades i [] file = (file, returns tt)
  run_upgrades i (query ∷ queries) file = elim (execute query file) [
    | inl msg ↦
        (file, throws (lit "Could not run upgrade " ++ (decimal i ++ (lit ", got error: " ++ msg))))
    | inr file' ↦ run_upgrades (i + 1) queries file'
  ]

  unfoldable pub store : File × Outcome (Unit {0}) → File × Outcome Unit
  unfolding execute lit
  store (file, returns _) = elim (execute store_version file) [
    | inl msg ↦
        (file, throws (lit "Could not set dazeus_version to latest version, got error: " ++ msg))
    | inr file' ↦ (file', returns tt)
  ]
  store (file, throws why) = (file, throws why)
  store (file, crashes why) = (file, crashes why)

  -- a negative version reads before the beginning of `upgrades`
  unfoldable pub upgrade_from : File → Outcome ℤ → File × Outcome Unit
  unfolding run_upgrades store
  upgrade_from file (returns (pos n)) =
      if ltb n 2
      then store (run_upgrades n (drop n (create_properties ∷ create_permissions ∷ [])) file)
      else (file, returns tt)
  upgrade_from file (returns (negsuc n)) = (file, crashes undefined_behaviour)
  upgrade_from file (throws why) = (file, throws why)
  upgrade_from file (crashes why) = (file, crashes why)

  -- `upgradeDB`
  unfoldable pub upgrade_db : File → File × Outcome Unit
  unfolding execute read_version upgrade_from lit
  upgrade_db file = elim (execute find_table file) [
    | inl msg ↦ (file, throws (lit "Failed to retrieve database version: " ++ msg))
    | inr _ ↦ upgrade_from file (read_version file)
  ]

  unfoldable pub has_table : File → Table → Bool
  has_table file dazeus_properties = elim file.properties [ none ↦ false | some _ ↦ true ]
  has_table file dazeus_permissions = elim file.permissions [ none ↦ false | some _ ↦ true ]

  -- `tryPrepare`, for the `i`-th statement
  unfoldable pub try_prepare : File → ℕ → Table → Outcome (Unit {0})
  unfolding has_table not_prepared
  try_prepare file i table =
      if has_table file table
      then elim (e.prepare i) [ none ↦ returns tt | some msg ↦ not_prepared msg ]
      else not_prepared (e.is_missing table)

  unfoldable pub prepare_all : File → ℕ → List Table → Outcome (Unit {0})
  unfolding try_prepare
  prepare_all file i [] = returns tt
  prepare_all file i (table ∷ tables) = elim (try_prepare file i table) [
    | returns _ ↦ prepare_all file (i + 1) tables
    | throws why ↦ throws why
    | crashes why ↦ crashes why
  ]

  -- `bootstrapDB`: four statements on the properties, three on the permissions
  unfoldable pub bootstrap_db : File → Outcome (Unit {0})
  unfolding prepare_all
  bootstrap_db file =
      let p = dazeus_properties in
      let q = dazeus_permissions in prepare_all file 0 (p ∷ p ∷ p ∷ p ∷ q ∷ q ∷ q ∷ [])

  unfoldable pub bootstrap : File × Outcome (Unit {0}) → File × Outcome Unit
  unfolding bootstrap_db
  bootstrap (file, returns _) = (file, bootstrap_db file)
  bootstrap (file, throws why) = (file, throws why)
  bootstrap (file, crashes why) = (file, crashes why)

  -- `SQLiteDatabase::open`
  unfoldable pub open_database : File → File × Outcome Unit
  unfolding upgrade_db bootstrap lit
  open_database file = elim e.open_fails [
    | none ↦ bootstrap (upgrade_db file)
    | some (code, msg) ↦
        (file, throws (lit "Can't open database (code " ++ (decimal code ++ (lit "): " ++ msg))))
  ]
