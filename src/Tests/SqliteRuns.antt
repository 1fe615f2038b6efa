-- ===== src/Tests/SqliteRuns.antt =====
-- Runs of the SQLite backend.
use dazeus_core.Base.{map, ◌≡◌, refl, Bool, true, false, [], ◌∷◌, Option, none, some, if◌then◌else◌}
use dazeus_core.Int.{pos}
use dazeus_core.Text.{Str, str_eq, str_lt, lit}
use dazeus_core.Json.{c_str, no_fields}
use dazeus_core.Requests.{crashes, returns, Request, succeed}
use dazeus_core.Sqlite.{
  sqlite, Faults, property, set_property, set_permission, unset_permission, property_keys,
}
use dazeus_core.Sqlite.Rows.{Property, Permission, Tables, select_property, select_keys, is_at}
use dazeus_core.Sqlite.Fitting.{narrow}
use dazeus_core.Sqlite.Scoped.{row_at, select_property_lem}
use dazeus_core.Sqlite.Stored.{row_of, AllWell, Writes}
use dazeus_core.Sqlite.Keyed.{IsKeyed, changes_lem}
use dazeus_core.Sqlite.Asked.{ask, did_property, on_property-on_property}
use dazeus_core.Requests.Storage.{answer_property}
use dazeus_core.Tests.Samples.{jansson, silent_plugin}
use dazeus_core.Sqlite.Upgrade.{Engine, Query, create_permissions, open_database}
use dazeus_core.Run.{undefined_behaviour}
use dazeus_core.Sqlite.Closing.{unset, statements, close_database}
use dazeus_core.Sqlite.HalfDone.{empty_file, half_done, Refuses, open_database-stuck}

abbrev wide : Property
wide = row_of (lit "perl") (lit "no") [] [] []

abbrev narrower : Property
narrower = row_of (lit "perl") (lit "yes") (lit "freenode") [] []

abbrev tables : Tables
tables = record { properties = narrower ∷ wide ∷ []; permissions = [] }

abbrev no_faults : Faults
no_faults = record { bind = λ statement i value. none; step = λ statement t rows. none }

-- the disk is full
abbrev full : Faults
full = record { bind = λ statement i value. none; step = λ statement t rows. some (13, lit "full") }

no_faults-AllWell : AllWell no_faults
unfolding AllWell
no_faults-AllWell = ((λ statement i value. refl), (λ statement t rows. refl))

found_narrow :
    (property no_faults tables (lit "perl") (lit "freenode") (lit "#a") []).1 ≡ returns (lit "yes")
unfolding property lit select_property str_eq str_lt
found_narrow = refl

found_wide :
    (property no_faults tables (lit "perl") (lit "oftc") (lit "#a") []).1 ≡ returns (lit "no")
unfolding property lit select_property str_eq str_lt
found_wide = refl

found_keys :
    (property_keys no_faults tables (lit "pe") (lit "freenode") [] []).1 ≡ returns (lit "perl" ∷ [])
unfolding property_keys lit select_keys str_eq
found_keys = refl

not_changed : (set_property full tables (lit "perl") [] [] [] []).0 ≡ tables
unfolding set_property lit
not_changed = refl

select_property_lem_example :
    select_property (lit "perl") (lit "freenode") (lit "#a") (lit "nick") (narrower ∷ wide ∷ [])
    ≡ narrow (lit "freenode") (λ n.
      narrow
        (lit "#a")
        (λ r. narrow (lit "nick") (λ s. row_at (lit "perl") (narrower ∷ wide ∷ []) n r s)))
select_property_lem_example =
    select_property_lem (lit "perl") (lit "freenode") (lit "#a") (lit "nick") (narrower ∷ wide ∷ [])

tables-IsKeyed : IsKeyed tables
unfolding IsKeyed lit is_at str_eq
tables-IsKeyed = (((refl, tt), (tt, tt)), tt)

abbrev kick : Permission
kick = record { permission = lit "kick"; network = lit "freenode"; receiver = []; sender = [] }

changes_lem_example :
    Writes tables
      (row_of (lit "perl") (lit "maybe") (lit "oftc") [] [])
      (set_property full tables (lit "perl") (lit "maybe") (lit "oftc") [] [])
    × IsKeyed (set_property full tables (lit "perl") (lit "maybe") (lit "oftc") [] []).0
    × IsKeyed (set_permission full tables true kick).0
    × IsKeyed (unset_permission full tables kick).0
changes_lem_example =
    changes_lem full tables (lit "perl") (lit "maybe") (lit "oftc") [] [] true kick tables-IsKeyed

abbrev request : Request Tables
request = record { response = no_fields; info = silent_plugin; database = tables; calls = [] }

on_property-on_property_example :
    (ask jansson no_faults [] (lit "set" ∷ lit "perl" ∷ lit "maybe" ∷ []) request ≡ (
      succeed jansson (
          did_property jansson request
            (ask jansson no_faults []
              (lit "set" ∷ lit "perl" ∷ lit "maybe" ∷ [])
              request).0.database),
      returns tt,
    ))
    × (ask jansson no_faults [] (lit "get" ∷ lit "perl" ∷ []) (record request {
      database =
          (ask jansson no_faults [] (lit "set" ∷ lit "perl" ∷ lit "maybe" ∷ []) request).0.database;
    })
        ≡ answer_property jansson (sqlite no_faults) (lit "perl") (c_str (lit "maybe")) (
            did_property jansson request
              (ask jansson no_faults []
                (lit "set" ∷ lit "perl" ∷ lit "maybe" ∷ [])
                request).0.database))
on_property-on_property_example =
    on_property-on_property jansson no_faults no_faults-AllWell [] [] [] (lit "perl") (lit "maybe")
      request request (unfold lit in refl)

-- the query that is named fails
abbrev engine : Bool → Engine
engine fails = record {
  open_fails = none;
  exec = λ query file. failure query;
  exists_already = λ table. lit "exists";
  is_missing = λ table. lit "missing";
  prepare = λ i. none;
  version = λ row rows. row;
  stoi = λ s. some (pos 2);
}
  where
    failure : Query → Option Str
    failure create_permissions = if fails then some (lit "full") else none
    failure _ = none

opened : (open_database (engine false) empty_file).1 ≡ returns tt
unfolding open_database lit
opened = refl

open_database-stuck_example :
    ((open_database (engine true) empty_file).0 ≡ half_done)
    × Refuses half_done (open_database (engine false) (open_database (engine true) empty_file).0)
open_database-stuck_example =
    open_database-stuck (engine true) (engine false) (lit "full") refl refl refl refl

-- after an upgrade that fails no pointer is set
not_closed : close_database true (map (λ _. unset) statements) ≡ crashes undefined_behaviour
unfolding close_database
not_closed = refl
