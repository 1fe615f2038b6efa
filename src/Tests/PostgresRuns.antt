-- ===== src/Tests/PostgresRuns.antt =====
-- Runs of the PostgreSQL backend.
use dazeus_core.Base.{◌≡◌, refl, false, [], ◌∷◌, Option, none, some, inr, arith}
use dazeus_core.Int.{pos}
use dazeus_core.Text.{Str, str_eq, str_lt, lit}
use dazeus_core.Text.Decimal.{decimal}
use dazeus_core.Requests.{returns, throws}
use dazeus_core.Settings.{default_database}
use dazeus_core.Sqlite.Rows.{Property, Tables, keep, is_at}
use dazeus_core.Sqlite.Stored.{row_of}
use dazeus_core.Postgres.{Server, committed, property, set_property}
use dazeus_core.Postgres.Rows.{is_same, inserted, upsert_property}
use dazeus_core.Postgres.Upgrade.{
  Host, Call, upgrade, create_function, connection_string, open_connection,
}
use dazeus_core.Postgres.Lookup.{EmptyFirst}
use dazeus_core.Postgres.Lost.{Works, set_property-lost}
use dazeus_core.Postgres.Kept.{set_property-kept}
use dazeus_core.Postgres.Recovery.{empty_schema, complete, Calm, open_connection-recovers}

abbrev wide : Property
wide = row_of (lit "perl") (lit "no") [] [] []

abbrev narrower : Property
narrower = row_of (lit "perl") (lit "yes") (lit "freenode") [] []

abbrev tables : Tables
tables = record { properties = wide ∷ narrower ∷ []; permissions = [] }

abbrev server : Server
server = record {
  order = str_lt;
  start = none;
  fault = λ statement values t. none;
  duplicate = lit "duplicate key";
  unknown = λ name. lit "unknown statement";
  wrong_count = lit "wrong count";
  finish = λ t. committed;
}

server-Works : Works server
server-Works = record { start = refl; fault = λ statement values t. refl; finish = λ t. refl }

str_lt_self : (u : Str) → str_lt u u ≡ false
unfolding str_lt
str_lt_self [] = refl
str_lt_self (c ∷ u) = ground (arith, str_lt_self u)

str_lt-EmptyFirst : EmptyFirst str_lt
unfolding str_lt
str_lt-EmptyFirst = record { before = λ c u. refl; after = λ c u. refl; self = str_lt_self }

set_property-lost_example :
    ((set_property server tables (lit "perl") (lit "maybe") (lit "freenode") (lit "#a") []).1
      ≡ returns tt)
    × ((property server
          (set_property server tables (lit "perl") (lit "maybe") (lit "freenode") (lit "#a") []).0
          (lit "perl")
          (lit "freenode")
          (lit "#a")
          []).1
        ≡ (property server tables (lit "perl") (lit "freenode") (lit "#a") []).1)
unfolding keep is_at is_same inserted str_eq lit
set_property-lost_example =
    set_property-lost server server-Works tables (lit "perl") (lit "freenode") (lit "#a")
      (lit "maybe") refl refl refl refl

set_property-kept_example :
    ((set_property server tables (lit "perl") (lit "maybe") (lit "freenode") [] []).1 ≡ returns tt)
    × ((property server
          (set_property server tables (lit "perl") (lit "maybe") (lit "freenode") [] []).0
          (lit "perl")
          (lit "freenode")
          []
          []).1
        ≡ returns (lit "maybe"))
unfolding upsert_property str_eq lit
set_property-kept_example =
    set_property-kept server tables (lit "perl") (lit "maybe") (lit "freenode")
      (wide ∷ row_of (lit "perl") (lit "maybe") (lit "freenode") [] [] ∷ []) server-Works
      str_lt-EmptyFirst refl refl

told : connection_string default_database ≡ lit "host = 127.0.0.1 port = 27017 dbname = dazeus "
unfolding connection_string default_database lit decimal
told = refl

abbrev fails_at : Call → Option Str
fails_at (upgrade create_function) = some (lit "no plpgsql")
fails_at _ = none

abbrev host : (Call → Option Str) → Host
host fault = record {
  order = str_lt;
  connect = λ s. none;
  prepare = none;
  start = none;
  fault = λ call d. fault call;
  exists_already = lit "exists";
  is_missing = lit "missing";
  duplicate = lit "duplicate key";
  as_int = λ s. inr (pos 5);
  finish = λ d. committed;
}

-- a failure between the tables and the triggers
rolled_back :
    open_connection (host fails_at) default_database empty_schema
    ≡ (empty_schema, throws (lit "no plpgsql"))
unfolding open_connection lit
rolled_back = refl

host-Calm : Calm (host (λ call. none)) default_database
host-Calm = record {
  connect = refl;
  prepare = refl;
  start = refl;
  fault = λ call d. refl;
  finish = refl;
  as_int = refl;
}

open_connection-recovers_example :
    open_connection
      (host (λ call. none))
      default_database
      (open_connection (host fails_at) default_database empty_schema).0
    ≡ (complete, returns tt)
open_connection-recovers_example =
    open_connection-recovers (host fails_at) (host (λ call. none)) default_database default_database
      host-Calm
