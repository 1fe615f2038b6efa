-- ===== src/Postgres/Recovery.antt =====
-- The upgrade of an empty PostgreSQL database: all of it or nothing is there afterwards, and a later
-- opening goes on from either.
use dazeus_core.Base.{
  ◌≡◌, refl, ◌∙◌, ap, Bool, true, false, List, [], ◌∷◌, Option, none, some, ◌⊎◌, inl, inr,
}
use dazeus_core.Int.{ℤ, pos}
use dazeus_core.Text.{Str, lit, str_eq}
use dazeus_core.Text.Decimal.{decimal}
use dazeus_core.Requests.{Outcome, returns, throws, crashes}
use dazeus_core.Settings.{DatabaseConfig}
use dazeus_core.Sqlite.Rows.{Property}
use dazeus_core.Sqlite.{◌>>=◌}
use dazeus_core.Postgres.Rows.{find_values, upsert_property, inserted}
use dazeus_core.Postgres.{Commit, committed, refused, in_doubt, unless, answered}
use dazeus_core.Postgres.Upgrade.{
  connection_string, Schema, Host, Call, Upgrade, create_properties, create_permissions,
  create_function, create_properties_trigger, create_permissions_trigger, upgrade, store_version,
  find_table, find_version, upgrades, run_sql, called, run_upgrades, store, read_version,
  version_of, upgrade_from, work, conclude, upgrade_db, open_connection,
}

abbrev pub empty_schema : Schema
empty_schema = record {
  properties = none;
  permissions = none;
  update_function = false;
  properties_trigger = false;
  permissions_trigger = false;
}

abbrev pub version_row : Property
version_row = inserted (lit "dazeus_version") (decimal 5) [] [] []

-- all of it, without and with the version
abbrev upgraded : Schema
upgraded = record {
  properties = some [];
  permissions = some [];
  update_function = true;
  properties_trigger = true;
  permissions_trigger = true;
}

abbrev pub complete : Schema
complete = record upgraded { properties = some (version_row ∷ []) }

-- a result that is the one given, or an exception, if `P` allows one
Only : {A : Type 0} → Type 0 → A → Outcome A → Type 0
Only P a (returns b) = b ≡ a
Only P a (throws why) = P
Only P a (crashes why) = ⊥

Only-bind :
    {A B : Type 0} (P : Type 0) (a : A) (b : B) (m : Outcome A) (f : A → Outcome B)
    → Only P a m
    → Only P b (f a)
    → Only P b (m >>= f)
unfolding Only
Only-bind P a b (returns c) f h k = rw h k
Only-bind P a b (throws why) f h k = h
Only-bind P a b (crashes why) f h k = elim h [ ]

Only-unless :
    {A : Type 0} (P : Type 0) (a : A) (m : Outcome A) (o : Option Str)
    → (o ≡ none) ⊎ P
    → Only P a m
    → Only P a (unless o m)
unfolding Only
Only-unless P a m none q h = h
Only-unless P a m (some msg) (inl e) h = absurd cc
Only-unless P a m (some msg) (inr p) h = p

Only-returns : {A : Type 0} (P : Type 0) (a : A) → Only P a (returns a)
unfolding Only
Only-returns P a = refl

Only-sure : {A : Type 0} (a : A) (o : Outcome A) → Only ⊥ a o → o ≡ returns a
unfolding Only
Only-sure a (returns b) h = ap returns h
Only-sure a (throws why) h = elim h [ ]
Only-sure a (crashes why) h = elim h [ ]

module _ (v : Host) (P : Type 0) (start : (v.start ≡ none) ⊎ P)
    (fault : (call : Call) (d : Schema) → (v.fault call d ≡ none) ⊎ P) where
  run_upgrades_next :
      (u : Upgrade) (us : List Upgrade) (d e z : Schema)
      → run_sql v u d ≡ inr e
      → Only P z (run_upgrades v us e)
      → Only P z (run_upgrades v (u ∷ us) d)
  unfolding run_upgrades
  run_upgrades_next u us d e z h k = rw h (
      Only-bind P e z (called v (upgrade u) d (returns e)) (run_upgrades v us)
        (Only-unless P e (returns e) (v.fault (upgrade u) d) (fault (upgrade u) d)
          (Only-returns P e))
        k)

  run_upgrades-Only : Only P upgraded (run_upgrades v upgrades empty_schema)
  unfolding run_sql
  run_upgrades-Only = run_upgrades_next create_properties _ _ _ upgraded refl (
      run_upgrades_next create_permissions _ _ _ upgraded refl (
        run_upgrades_next create_function _ _ _ upgraded refl (
          run_upgrades_next create_properties_trigger _ _ _ upgraded refl (
            run_upgrades_next create_permissions_trigger [] _ upgraded upgraded refl
              (unfold run_upgrades in Only-returns P upgraded)))))

  work-Only : Only P (complete, true) (work v empty_schema)
  unfolding work read_version upgrade_from store upsert_property
  work-Only =
      Only-unless P (complete, true) _ v.start start
        (Only-bind P empty_schema (complete, true) _ _
          (Only-unless P empty_schema _ (v.fault find_table empty_schema)
            (fault find_table empty_schema) (Only-returns P empty_schema))
          (Only-bind P upgraded (complete, true) _ _ run_upgrades-Only
            (Only-bind P complete (complete, true) _ _
              (Only-unless P complete _ (v.fault store_version upgraded)
                (fault store_version upgraded) (Only-returns P complete))
              (Only-returns P (complete, true)))))

module _ (v : Host) where
  -- nothing or all
  upgrade_db-Whole :
      (o : Outcome (Schema × Bool))
      → Only Unit (complete, true) o
      → ((upgrade_db v empty_schema o).0 ≡ empty_schema)
        ⊎ ((upgrade_db v empty_schema o).0 ≡ complete)
  unfolding upgrade_db Only
  upgrade_db-Whole (returns (d, b)) h = rw h (ended (v.finish complete))
    where
      ended :
          (c : Commit)
          → ((conclude v empty_schema complete c).0 ≡ empty_schema)
            ⊎ ((conclude v empty_schema complete c).0 ≡ complete)
      ended committed = inr refl
      ended (refused why) = inl refl
      ended (in_doubt true why) = inr refl
      ended (in_doubt false why) = inl refl
  upgrade_db-Whole (throws why) h = inl refl
  upgrade_db-Whole (crashes why) h = elim h [ ]

  open_connection-Whole :
      (dbc : DatabaseConfig)
      → ((open_connection v dbc empty_schema).0 ≡ empty_schema)
        ⊎ ((open_connection v dbc empty_schema).0 ≡ complete)
  unfolding open_connection
  open_connection-Whole dbc = upgrade_db-Whole _ (
      Only-unless Unit (complete, true) _ (v.connect (connection_string dbc)) (inr tt)
        (Only-unless Unit (complete, true) _ v.prepare (inr tt)
          (work-Only v Unit (inr tt) (λ call d. inr tt))))

-- a later opening at which nothing fails
pub record Calm (v : Host) (dbc : DatabaseConfig) : Type 0 where
  pub connect : v.connect (connection_string dbc) ≡ none
  pub prepare : v.prepare ≡ none
  pub start : v.start ≡ none
  pub fault : (call : Call) (d : Schema) → v.fault call d ≡ none
  pub finish : v.finish complete ≡ committed
  pub as_int : v.as_int (decimal 5) ≡ inr (pos 5)

module _ (v : Host) (dbc : DatabaseConfig) (calm : Calm v dbc) where
  work-empty : work v empty_schema ≡ returns (complete, true)
  work-empty =
      Only-sure (complete, true) _
        (work-Only v ⊥ (inl calm.start) (λ call d. inl (calm.fault call d)))

  work-complete : work v complete ≡ returns (complete, false)
  unfolding work read_version upgrade_from version_of find_values lit str_eq decimal
  work-complete =
      Only-sure (complete, false) _
        (Only-unless ⊥ (complete, false) _ v.start (inl calm.start)
          (Only-bind ⊥ complete (complete, false) _ _
            (Only-unless ⊥ complete _ (v.fault find_table complete)
              (inl (calm.fault find_table complete)) (Only-returns ⊥ complete))
            (Only-bind ⊥ (pos 5) (complete, false) _ _
              (Only-unless ⊥ (pos 5) _ (v.fault find_version complete)
                (inl (calm.fault find_version complete)) (told (v.as_int (decimal 5)) calm.as_int))
              (Only-returns ⊥ (complete, false)))))
    where
      told : (o : Str ⊎ ℤ) → o ≡ inr (pos 5) → Only ⊥ (pos 5) (answered o)
      told (inl msg) e = absurd cc
      told (inr n) e = let same : n ≡ pos 5 = cc in unfold Only in same

  open_connection-calm :
      (d : Schema) (b : Bool)
      → work v d ≡ returns (complete, b)
      → open_connection v dbc d ≡ upgrade_db v d (returns (complete, b))
  unfolding open_connection
  open_connection-calm d b h = rw h (
      ap (upgrade_db v d) (
        Only-sure (complete, b) _
          (Only-unless ⊥ (complete, b) _ (v.connect (connection_string dbc)) (inl calm.connect)
            (Only-unless ⊥ (complete, b) _ v.prepare (inl calm.prepare)
              (Only-returns ⊥ (complete, b))))))

-- The upgrade is one transaction: whatever fails while an empty database is opened, even a commit
-- whose end is unknown, a later opening at which nothing fails returns and leaves the tables, the
-- triggers and the version.
pub open_connection-recovers :
    (v later : Host) (dbc dbc' : DatabaseConfig)
    → Calm later dbc'
    → open_connection later dbc' (open_connection v dbc empty_schema).0 ≡ (complete, returns tt)
unfolding upgrade_db conclude
open_connection-recovers v later dbc dbc' calm = elim (open_connection-Whole v dbc) [
  | inl none_of_it ↦ rw none_of_it (
      open_connection-calm later dbc' calm empty_schema true (work-empty later dbc' calm)
      ∙ ap (conclude later empty_schema complete) calm.finish)
  | inr all_of_it ↦
      rw all_of_it
        (open_connection-calm later dbc' calm complete false (work-complete later dbc' calm) ∙ refl)
]
