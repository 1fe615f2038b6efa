-- ===== src/Tests/DazeusRuns.antt =====
-- The bot with one network, a database that holds one value, and no plugins.
use dazeus_core.Base.{◌≡◌, refl, true, false, none, List, [], ◌∷◌, some, arith}
use dazeus_core.Text.{Str, lit, str_eq, is}
use dazeus_core.Int.{pos}
use dazeus_core.Run.{done, dies, undefined_behaviour, Yields}
use dazeus_core.Settings.{default_database, default_global}
use dazeus_core.Config.{initial}
use dazeus_core.Config.Reading.{Callback, opens, closes, sets, Settings, is_read, read}
use dazeus_core.Monitor.{Host}
use dazeus_core.Monitor.Reload.{Pass}
use dazeus_core.Requests.{returns, throws}
use dazeus_core.Dazeus.{DaZeus, new_dazeus, object, create_db, connect_database}
use dazeus_core.Dazeus.Load.{World, Attempt, load_config, with_result, apply_settings, count_init}
use dazeus_core.Dazeus.Loop.{stop, run}
use dazeus_core.Dazeus.Start.{starts_with, exits, options}
use dazeus_core.Connections.Opening.{Opening}
use dazeus_core.Dazeus.Loaded.{Loads, load_config_lem}
use dazeus_core.Dazeus.Running.{beginning, RunsAfter, run-Runs}
use dazeus_core.Dazeus.Dangling.{Finds, without_database, load_config-deletes_twice}
use dazeus_core.Text.Decimal.{decimal}
use dazeus_core.Dazeus.Inits.{init_text}
use dazeus_core.Dazeus.Counting.{count_init_lem}
use dazeus_core.Tests.Samples.{utils, defaults, tag, database}

abbrev host : Host
host = record {
  directory_exists = λ s. true;
  file_exists = λ s. true;
  executable_exists = λ s. true;
  fork = λ k path arguments executable. some 9;
  plugin_directory = [];
  socket = done [];
}

-- built with SQLite alone
abbrev w : World Str
w = record {
  utils = utils;
  defaults = defaults;
  host = host;
  built = record { db_postgres = false; db_sqlite = true; db_mongo = false };
  fresh = λ b dbc. [];
  opens = λ b dbc. returns (lit "41");
  db = database;
  auto_connect_enabled = λ nc. nc.auto_connect;
}

-- a database block with a type, and a network block
abbrev file : Str → List Callback
file kind =
    opens (tag (lit "<database>"))
    ∷ sets (record { name = lit "type"; str = kind; value = pos 0; list = [] })
    ∷ closes (tag (lit "</database>"))
    ∷ opens (record { name = lit "<network"; str = lit "n>"; value = pos 0; list = [] })
    ∷ closes (tag (lit "</network>"))
    ∷ []

abbrev settings : Str → Settings
settings kind = record {
  sockets = [];
  networks =
      record defaults.network {
        name = lit "n";
        display_name = lit "n";
        nick_name = default_global.default_nickname;
        user_name = default_global.default_username;
        full_name = default_global.default_fullname;
      }
      ∷ [];
  plugins = [];
  global = default_global;
  database = record default_database { kind = kind };
}

abbrev closed_port : Opening
closed_port = record {
  resolved = false;
  socket = none;
  bound = false;
  listening = false;
  real_path = none;
  any_address = false;
}

abbrev quiet : Pass
quiet = record { signalled = false; now = 1; children = [] }

abbrev attempt : Str → Attempt
attempt kind = record {
  created = true;
  loop_ok = true;
  calls = file kind;
  openings = λ i. closed_port;
  soft = quiet;
  hard = quiet;
  last = quiet;
  left = record { states = []; should_run = false; forks = 0 };
}

sqlite_file : Finds w (attempt (lit "sqlite")) (settings (lit "sqlite"))
unfolding read lit is str_eq initial default_global default_database
sqlite_file = refl

mysql_file : Finds w (attempt (lit "mysql")) (settings (lit "mysql"))
unfolding read lit is str_eq initial default_global default_database
mysql_file = refl

-- the bot after a load
abbrev loaded : DaZeus Str
loaded = record {
  settings = some (settings (lit "sqlite"));
  is_read = true;
  config_file_name = lit "c";
  database = object (lit "41");
  plugins = none;
  plugin_monitor = none;
  networks = (lit "m", 1) ∷ (lit "n", 2) ∷ [];
  next_network = 3;
  running = true;
  config_reload_pending = false;
  events = [];
}

load_config_lem_example :
    Yields
      (Loads w (attempt (lit "sqlite")) loaded (is_read (settings (lit "sqlite"))))
      (load_config w (attempt (lit "sqlite")) loaded)
load_config_lem_example =
    load_config_lem w (attempt (lit "sqlite")) loaded (is_read (settings (lit "sqlite")))
      sqlite_file

-- the load of a file with a database that the bot was not built with
abbrev refused_bot : DaZeus Str
refused_bot = record (new_dazeus (lit "c")) {
  running = true;
  config_reload_pending = false;
  settings = some (settings (lit "mysql"));
  is_read = true;
}

first_fails :
    load_config w (attempt (lit "mysql")) (beginning w (lit "c")) ≡ done (refused_bot, false)
unfolding load_config read lit is str_eq initial default_global default_database new_dazeus
    with_result apply_settings connect_database create_db
first_fails = refl

run-Runs_example : RunsAfter w refused_bot false (
    run w
      (record { attempt = attempt (lit "mysql"); now = 1; children = []; calls = stop ∷ [] } ∷ [])
      (new_dazeus (lit "c")))
run-Runs_example =
    run-Runs w
      (record { attempt = attempt (lit "mysql"); now = 1; children = []; calls = stop ∷ [] }) []
      (lit "c") refused_bot false ((is_read (settings (lit "mysql")), mysql_file), tt) first_fails

unknown_mysql :
    create_db w.built (record default_database { kind = lit "mysql" })
    ≡ throws (lit "Database of type 'mysql' not supported")
unfolding create_db lit is str_eq default_database
unknown_mysql = refl

load_config-deletes_twice_example :
    (load_config w (attempt (lit "mysql")) loaded
      ≡ done (without_database (settings (lit "mysql")) loaded, false))
    × (load_config w (attempt (lit "sqlite")) (without_database (settings (lit "mysql")) loaded)
        ≡ dies undefined_behaviour)
load_config-deletes_twice_example =
    load_config-deletes_twice w (attempt (lit "mysql")) (attempt (lit "sqlite"))
      (settings (lit "mysql")) (settings (lit "sqlite")) loaded (lit "41")
      (lit "Database of type 'mysql' not supported") (unfold lit in refl) mysql_file sqlite_file
      refl unknown_mysql

count_init_lem_example :
    count_init w (attempt (lit "sqlite")) loaded (object (lit "41"))
    ≡ done (record loaded { database = object (lit "42") })
unfolding lit init_text decimal
count_init_lem_example =
    count_init_lem w (attempt (lit "sqlite")) loaded 41 (lit "41") (lit "41") (lit "42")
      (omega arith) refl refl

-- a file that is not named is not missed
named :
    options (lit "dazeus.conf") false (lit "-c" ∷ lit "b" ∷ lit "-c" ∷ []) ≡ starts_with (lit "b")
unfolding options is str_eq lit
named = refl

helped : options (lit "dazeus.conf") false (lit "-c" ∷ lit "-h" ∷ lit "-h" ∷ []) ≡ exits 1
unfolding options is str_eq lit
helped = refl
