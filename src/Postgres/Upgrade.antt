-- ===== src/Postgres/Upgrade.antt =====
-- The connection of the PostgreSQL backend, and the upgrade of its tables in one transaction
-- (src/db/postgres.cpp, `open`, `upgradeDB`). What is printed is left out.
use dazeus_core.Base.{
  Bool, true, false, ◌&&◌, List, [], ◌∷◌, ◌++◌, drop, Option, none, some, ◌⊎◌, inl, inr,
  if◌then◌else◌, is_empty, ltb,
}
use dazeus_core.Int.{ℤ, pos, negsuc}
use dazeus_core.Text.{Str, lit}
use dazeus_core.Text.Decimal.{decimal}
use dazeus_core.Run.{undefined_behaviour}
use dazeus_core.Requests.{Outcome, returns, throws, crashes}
use dazeus_core.Settings.{DatabaseConfig}
use dazeus_core.Sqlite.Rows.{Property, Permission}
use dazeus_core.Sqlite.{◌>>=◌}
use dazeus_core.Postgres.Rows.{find_values, upsert_property}
use dazeus_core.Postgres.{Commit, committed, refused, in_doubt, unless, answered}

-- `name = value `, where a value is given
unfoldable pub setting : Str → Str → Str
unfolding lit
setting name value = if is_empty value then [] else name ++ (lit " = " ++ (value ++ lit " "))

unfoldable pub connection_string : DatabaseConfig → Str
unfolding setting lit decimal
connection_string dbc =
    setting (lit "host") dbc.hostname
    ++ (setting (lit "port") (if ltb 0 dbc.port then decimal dbc.port else [])
        ++ (setting (lit "dbname") dbc.database
            ++ (setting (lit "user") dbc.username
                ++ (setting (lit "password") dbc.password ++ dbc.options))))

-- what the database has
pub record Schema : Type 0 where
  pub properties : Option (List Property)
  pub permissions : Option (List Permission)
  pub update_function : Bool
  pub properties_trigger : Bool
  pub permissions_trigger : Bool

pub data Upgrade : Type 0 where
  create_properties create_permissions create_function : Upgrade
  create_properties_trigger create_permissions_trigger : Upgrade

-- what a transaction sends to the server
pub data Call : Type 0 where
  find_table find_version store_version : Call
  upgrade : Upgrade → Call

-- What the server and libpqxx answer: texts of exceptions where a call fails, and how a text is read
-- as an `int`.
pub record Host : Type 0 where
  pub order : Str → Str → Bool
  pub connect : Str → Option Str
  pub prepare : Option Str
  pub start : Option Str
  pub fault : Call → Schema → Option Str
  pub exists_already : Str
  pub is_missing : Str
  pub duplicate : Str
  pub as_int : Str → Str ⊎ ℤ
  pub finish : Schema → Commit

abbrev pub is_there : {A : Type 0} → Option A → Bool
is_there none = false
is_there (some _) = true

abbrev pub upgrades : List Upgrade
upgrades =
    create_properties ∷ create_permissions ∷ create_function ∷ create_properties_trigger
    ∷ create_permissions_trigger ∷ []

module _ (v : Host) where
  -- the statement of an upgrade
  unfoldable pub run_sql : Upgrade → Schema → Str ⊎ Schema
  run_sql create_properties d =
      if is_there d.properties
      then inl v.exists_already
      else inr (record d { properties = some [] })
  run_sql create_permissions d =
      if is_there d.permissions
      then inl v.exists_already
      else inr (record d { permissions = some [] })
  run_sql create_function d = inr (record d { update_function = true })
  run_sql create_properties_trigger d =
      if is_there d.properties && d.update_function
      then (if d.properties_trigger
          then inl v.exists_already
          else inr (record d { properties_trigger = true }))
      else inl v.is_missing
  run_sql create_permissions_trigger d =
      if is_there d.permissions && d.update_function
      then (if d.permissions_trigger
          then inl v.exists_already
          else inr (record d { permissions_trigger = true }))
      else inl v.is_missing

  -- a call that succeeds with what is given, unless the server fails
  abbrev pub called : Call → Schema → Outcome Schema → Outcome Schema
  called call d answer = unless (v.fault call d) answer

  -- `w.exec(upgrades[i])` in the loop
  unfoldable pub run_upgrades : List Upgrade → Schema → Outcome Schema
  unfolding run_sql
  run_upgrades [] d = returns d
  run_upgrades (u ∷ us) d = called (upgrade u) d (answered (run_sql u d)) >>= run_upgrades us

  -- `update_property` for the version, in every scope empty
  unfoldable pub store : Schema → Outcome Schema
  unfolding upsert_property lit decimal
  store d = elim d.properties [
    | none ↦ throws v.is_missing
    | some rows ↦ elim (upsert_property (lit "dazeus_version") (decimal 5) [] [] [] rows) [
      | none ↦ throws v.duplicate
      | some rows' ↦ returns (record d { properties = some rows' })
    ]
  ]

  unfoldable pub version_of : List Str → Outcome ℤ
  version_of [] = returns (pos 0)
  version_of (value ∷ _) = answered (v.as_int value)

  unfoldable pub read_version : Schema → Outcome ℤ
  unfolding version_of find_values lit
  read_version d = elim d.properties [
    | none ↦ returns (pos 0)
    | some rows ↦
        unless (v.fault find_version d)
          (version_of (find_values v.order (lit "dazeus_version") [] [] [] rows))
  ]

  -- the upgrades that are left, and whether there are any; a negative version reads before `upgrades`
  unfoldable pub upgrade_from : Schema → ℤ → Outcome (Schema × Bool)
  unfolding run_upgrades store
  upgrade_from d (negsuc n) = crashes undefined_behaviour
  upgrade_from d (pos n) =
      if ltb n 5
      then (run_upgrades (drop n upgrades) d >>= λ e.
          called store_version e (store e) >>= λ e'. returns (e', true))
      else returns (d, false)

  -- the transaction until its end
  unfoldable pub work : Schema → Outcome (Schema × Bool)
  unfolding read_version upgrade_from
  work d =
      unless v.start (called find_table d (returns d) >>= λ _. read_version d >>= upgrade_from d)

  unfoldable pub conclude : Schema → Schema → Commit → Schema × Outcome (Unit {0})
  conclude d d' committed = (d', returns tt)
  conclude d d' (refused why) = (d, throws why)
  conclude d d' (in_doubt done why) = (if done then d' else d, throws why)

  -- a transaction that does not come to its commit changes nothing
  unfoldable pub upgrade_db : Schema → Outcome (Schema × Bool) → Schema × Outcome Unit
  unfolding conclude
  upgrade_db d (returns (d', true)) = conclude d d' (v.finish d')
  upgrade_db d (returns (d', false)) = (d, returns tt)
  upgrade_db d (throws why) = (d, throws why)
  upgrade_db d (crashes why) = (d, crashes why)

  -- `open`; the exceptions of libpqxx become those of the database
  unfoldable pub open_connection : DatabaseConfig → Schema → Schema × Outcome Unit
  unfolding connection_string work upgrade_db
  open_connection dbc d =
      upgrade_db d (unless (v.connect (connection_string dbc)) (unless v.prepare (work d)))
