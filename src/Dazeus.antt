-- ===== src/Dazeus.antt =====
-- `DaZeus` (src/dazeus.cpp) and `Factory` (src/db/factory.h): the bot's configuration, its database
-- connection, and its networks.
pub mod Inits
pub mod Counting
pub mod Load
pub mod Loop
pub mod Start
pub mod Networks
pub mod Connected
pub mod Loaded
pub mod Running
pub mod Dangling
use dazeus_core.Base.{
  ℕ, ◌+◌, Bool, true, false, not, ◌&&◌, ◌||◌, List, [], ◌∷◌, ◌++◌, Option, none, some,
  if◌then◌else◌,
}
use dazeus_core.Text.{Str, lit, str_eq, is}
use dazeus_core.Map
use dazeus_core.Run.{Run, done, dies, assert_failed, undefined_behaviour, ◌>>=◌}
use dazeus_core.Settings.{DatabaseConfig, NetworkConfig}
use dazeus_core.Config.Reading.{Settings}
use dazeus_core.Monitor.{Monitor}
use dazeus_core.Requests.{Outcome, returns, throws, crashes}

-- A pointer to the database: it is 0, or to a live object with the contents `D`, or to an object
-- that was deleted.
pub data Pointer (D : Type 0) : Type 0 where
  null dangling : Pointer D
  object : D → Pointer D

-- The database pointer of `plugins_`: it is `database_`, or points to an object that was deleted.
pub data Link : Type 0 where
  current stale : Link

-- What the bot does with a network, which is known by its address.
pub data NetworkEvent : Type 0 where
  created : ℕ → NetworkConfig → NetworkEvent
  listener_added connected disconnected : ℕ → NetworkEvent
  config_reset : ℕ → NetworkConfig → NetworkEvent

-- `settings` is what `config_` holds, from the last file that could be read; `plugins` is the
-- database pointer of `plugins_`, and `plugin_monitor` stands with its plugin directory.
-- `next_network` is the address that `new Network` gives next.
pub record DaZeus (D : Type 0) : Type 0 where
  pub settings : Option Settings
  pub is_read : Bool
  pub config_file_name : Str
  pub database : Pointer D
  pub plugins : Option Link
  pub plugin_monitor : Option (Str × Monitor)
  pub networks : List (Str × ℕ)
  pub next_network : ℕ
  pub running : Bool
  pub config_reload_pending : Bool
  pub events : List NetworkEvent

-- which backends the bot was built with: `DB_POSTGRES`, `DB_SQLITE`, `DB_MONGO`
pub record Built : Type 0 where
  pub db_postgres : Bool
  pub db_sqlite : Bool
  pub db_mongo : Bool

pub data Backend : Type 0 where
  postgres sqlite mongo : Backend

-- `Factory::createDb`; the names of the backends differ
unfoldable pub create_db : Built → DatabaseConfig → Outcome Backend
unfolding is
create_db b dbc =
    if b.db_postgres
      && (is dbc.kind "postgres"
          || is dbc.kind "postgresql"
          || is dbc.kind "pq"
          || is dbc.kind "psql")
    then returns postgres
    else if b.db_sqlite && (is dbc.kind "sqlite" || is dbc.kind "sqlite3")
    then returns sqlite
    else if b.db_mongo && (is dbc.kind "mongo" || is dbc.kind "mongodb")
    then returns mongo
    else throws (lit "Database of type '" ++ (dbc.kind ++ lit "' not supported"))

unfoldable pub is_configured : Str → List NetworkConfig → Bool
is_configured name [] = false
is_configured name (nc ∷ ncs) = str_eq nc.name name || is_configured name ncs

-- the networks that stay, and the calls on those that go
unfoldable pub split_gone : List NetworkConfig → List (Str × ℕ) → List (Str × ℕ) × List NetworkEvent
unfolding is_configured
split_gone ncs [] = ([], [])
split_gone ncs ((name, net) ∷ rest) =
    let (kept, gone) = split_gone ncs rest in
    if is_configured name ncs then ((name, net) ∷ kept, gone) else (kept, disconnected net ∷ gone)

module _ {D : Type 0} where
  -- the constructor
  unfoldable pub new_dazeus : Str → DaZeus D
  new_dazeus config_file_name = record {
    settings = none;
    is_read = false;
    config_file_name = config_file_name;
    database = null;
    plugins = none;
    plugin_monitor = none;
    networks = [];
    next_network = 1;
    running = false;
    config_reload_pending = true;
    events = [];
  }

  -- `delete database_`: every pointer to the object dangles, and so does the one of `plugins_`
  unfoldable pub delete_database : DaZeus D → Pointer D → Run (DaZeus D)
  delete_database s null = done s
  delete_database s dangling = dies undefined_behaviour
  delete_database s (object d) = done (record s {
    database = dangling;
    plugins = elim s.plugins [ none ↦ none | some p ↦ some stale ];
  })

  -- `open()` on the new object: a `db::exception` is reported
  unfoldable pub open_backend : DaZeus D → D → Outcome D → Run (DaZeus D × Bool)
  open_backend s fresh (returns d) = done (record s { database = object d }, true)
  open_backend s fresh (throws why) = done (record s { database = object fresh }, false)
  open_backend s fresh (crashes why) = dies why

  -- `fresh` is the new object before `open`
  unfoldable pub connect_new :
      (Backend → DatabaseConfig → D)
      → (Backend → DatabaseConfig → Outcome D)
      → DatabaseConfig
      → DaZeus D
      → Outcome Backend
      → Run (DaZeus D × Bool)
  unfolding open_backend
  connect_new fresh opens dbc s (returns backend) =
      open_backend s (fresh backend dbc) (opens backend dbc)
  connect_new fresh opens dbc s (throws why) = done (s, false)
  connect_new fresh opens dbc s (crashes why) = dies why

  unfoldable pub connect_database :
      Built
      → (Backend → DatabaseConfig → D)
      → (Backend → DatabaseConfig → Outcome D)
      → DatabaseConfig
      → DaZeus D
      → Run (DaZeus D × Bool)
  unfolding delete_database connect_new
  connect_database b fresh opens dbc s =
      if not s.is_read
      then dies assert_failed
      else delete_database s s.database >>= λ s'. connect_new fresh opens dbc s' (create_db b dbc)

  -- the event log is in the order of the calls
  abbrev pub note : NetworkEvent → DaZeus D → DaZeus D
  note e s = record s { events = s.events ++ e ∷ [] }

  -- `autoConnectEnabled()` is libdazeus-irc's
  unfoldable pub add_network : (NetworkConfig → Bool) → NetworkConfig → DaZeus D → DaZeus D
  add_network auto_connect_enabled nc s =
      let net = s.next_network in
      let s' = record s {
        networks = Map.assign nc.name net s.networks;
        next_network = net + 1;
        events = s.events ++ created net nc ∷ listener_added net ∷ [];
      } in
      if auto_connect_enabled nc then note (connected net) s' else s'

  unfoldable pub update_network :
      (NetworkConfig → Bool) → NetworkConfig → Option ℕ → DaZeus D → DaZeus D
  unfolding add_network
  update_network auto_connect_enabled nc none s = add_network auto_connect_enabled nc s
  update_network auto_connect_enabled nc (some net) s = note (config_reset net nc) s

  unfoldable pub update_networks : (NetworkConfig → Bool) → List NetworkConfig → DaZeus D → DaZeus D
  unfolding update_network
  update_networks auto_connect_enabled [] s = s
  update_networks auto_connect_enabled (nc ∷ ncs) s =
      update_networks auto_connect_enabled ncs
        (update_network auto_connect_enabled nc (Map.find nc.name s.networks) s)

  unfoldable pub drop_gone : List NetworkConfig → DaZeus D → DaZeus D
  unfolding split_gone
  drop_gone ncs s =
      let (kept, gone) = split_gone ncs s.networks in
      record s { networks = kept; events = s.events ++ gone }
