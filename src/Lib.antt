-- ===== src/Lib.antt =====
-- DaZeus, an IRC bot whose plugins are processes of their own, which talk to it over sockets. This is
-- a model of its core, in the order in which an event or a request passes through it.
--
--   Wire       the framing of the plugin protocol: a size in digits and a JSON text. The inner loop of
--              `PluginComm::poll` (src/plugincomm.cpp) and the writers (src/plugincomm.h).
--   Requests   what the bot does with a packet: `PluginComm::handle`. `Input` reads the parameters,
--              `Network`, `Plugin` and `Storage` hold the actions, `Handle` chooses between them.
--   Socket     `SocketInfo` and `RequirementInfo` (src/plugincomm.h): what one plugin has asked to hear.
--   Comm       `PluginComm`: `dispatch`, `flushCommandQueue`, `messageReceived` (Comm), and `ircEvent`
--              (Comm.Events), which the IRC networks call.
--   Connections
--              the sockets of `PluginComm`: Poll for `poll`, Opening for `init` and the new
--              connections, Select for `run`.
--   Command    the parser of bot commands in `messageReceived`.
--   Monitor    `PluginMonitor` (src/pluginmonitor.cpp): `runOnce`, `start_plugin` and the parser of a
--              plugin's parameters (Monitor.Arguments); Monitor.Reload: `configReloaded`.
--   Config     the callbacks of the configuration reader (src/config.cpp): Config for the sections,
--              Config.Options for the options, Config.Reading for `ConfigReader::read`.
--   Sqlite     `SQLiteDatabase` (src/db/sqlite.cpp): Rows for the tables and the SQL statements on them,
--              Sqlite for the methods that run them, Upgrade for `open`, Closing for the
--              destructor.
--   Postgres   `PostgreSQLDatabase` (src/db/postgres.cpp): Rows for the SQL statements, Postgres for the
--              methods, each a transaction, Upgrade for `open`. Its tables are those of Sqlite.
--   Mongo      `MongoDatabase` (src/db/mongo.cpp): Documents for the meaning of selectors and updates,
--              Mongo for the properties, Permissions for the permissions and `open`.
--   Dazeus     `DaZeus` (src/dazeus.cpp) and `Factory` (src/db/factory.h): Load for `loadConfig`, Inits
--              for the count of initialisations, Loop for `run` and the destructor, Start for
--              the options and `main` (src/main.cpp).
--   Settings   the configuration records (src/config.h, src/db/database.h).
--   Base, Text, Int, Map, Run, Json, External, Tests
--              shared names, strings as lists of bytes, signed numbers, ordered maps, the ways in which
--              a run ends, JSON values, the interfaces of what the bot only calls, and concrete runs.
--
-- State is passed on explicitly: a handler takes the record of the component and gives the new one. A
-- run that can fail is a `Run`: it gives a value, or the process dies of a failed assertion, an
-- exception that nothing catches, or an access without meaning. `Outcome` is the result of a call that
-- may throw inside of `handle`. Functions of C++ keep their names, in lower case with underscores.
--
-- Parameters are the helpers of libdazeus-irc (`Utils`, with `UtilsLaws` for what the subscriptions
-- rely on), its networks (`Networks`; the calls on them are recorded as `NetworkCall`), jansson
-- (`Jansson`), the operating system (`Host`), the calls of SQLite that may fail (`Faults`, `Engine`),
-- those of libpqxx (`Server`, `Postgres.Upgrade.Host`) and of libmongo-client (`Driver`), and dotconf,
-- which is the list of the calls that it makes. The requests use any `Database`, of which
-- `Sqlite.sqlite`, `Postgres.postgres` and `Mongo.Permissions.mongo` are three. Pointers to networks
-- are addresses.
--
-- Numbers: a size is an `int`, so it is at most 2^31 - 1, and the length of a buffer is cut to 32 bits
-- where the code compares it; ports have 16 bits. The loop over packets runs on fuel: each round
-- but the last takes a byte at least, so one more than the buffered bytes is enough. So does the
-- print of a number n in decimals, with n + 1.
--
-- Not modelled: that a step back from the first element of a vector is undefined, which
-- `flushCommandQueue` makes where it erases the first command; the counts of references of the JSON
-- wrapper (src/jsonwrap.cpp), the child's side of a fork, what the system calls do (their answers
-- are given by records), log output, the destructors of the PostgreSQL and MongoDB backends, and
-- the ownership of memory.
pub mod Base
pub mod Text
pub mod Int
pub mod Map
pub mod Run
pub mod Wire
pub mod Command
pub mod External
pub mod Json
pub mod Socket
pub mod Comm
pub mod Settings
pub mod Monitor
pub mod Config
pub mod Requests
pub mod Connections
pub mod Sqlite
pub mod Postgres
pub mod Mongo
pub mod Dazeus
pub mod Tests
