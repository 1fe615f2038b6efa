-- ===== src/Settings.antt =====
-- The configuration records of src/config.h and src/db/database.h, and the two that the reader
-- fills for libdazeus-irc.
use dazeus_core.Base.{ℕ, Bool, false, List, [], ◌∷◌, ◌++◌, if◌then◌else◌}
use dazeus_core.Text.{Str, lit, is}
use dazeus_core.Text.Decimal.{decimal}
use dazeus_core.Int.{ℤ}
use dazeus_core.Run.{Run, done, dies, assert_failed, uncaught_exception}

pub record GlobalConfig : Type 0 where
  pub default_nickname : Str
  pub default_username : Str
  pub default_fullname : Str
  pub plugindirectory : Str
  pub highlight : Str

unfoldable pub default_global : GlobalConfig
default_global = record {
  default_nickname = lit "DaZeus";
  default_username = lit "DaZeus";
  default_fullname = lit "DaZeus IRC bot";
  plugindirectory = lit "plugins";
  highlight = lit "}";
}

pub record PluginConfig : Type 0 where
  pub name : Str
  pub path : Str
  pub executable : Str
  pub per_network : Bool
  pub parameters : Str
  pub config : List (Str × Str)

unfoldable pub new_plugin_config : Str → PluginConfig
new_plugin_config name = record {
  name = name;
  path = [];
  executable = [];
  per_network = false;
  parameters = [];
  config = [];
}

pub record SocketConfig : Type 0 where
  pub kind : Str
  pub host : Str
  pub port : ℕ
  pub path : Str

unfoldable pub new_socket_config : SocketConfig
new_socket_config = record { kind = []; host = []; port = 0; path = [] }

-- `SocketConfig::toString`
unfoldable pub to_string : SocketConfig → Run Str
to_string sc =
    if is sc.kind "unix"
    then done (lit "unix:" ++ sc.path)
    else if is sc.kind "tcp"
    then done (lit "tcp:" ++ (sc.host ++ (lit ":" ++ decimal sc.port)))
    else dies assert_failed

-- `ConfigReader::getPluginSocket`
unfoldable pub get_plugin_socket : List SocketConfig → Run SocketConfig
get_plugin_socket [] = dies uncaught_exception
get_plugin_socket (sc ∷ rest) = done sc

pub record DatabaseConfig : Type 0 where
  pub kind : Str
  pub hostname : Str
  pub port : ℕ
  pub username : Str
  pub password : Str
  pub filename : Str
  pub database : Str
  pub options : Str

unfoldable pub default_database : DatabaseConfig
default_database = record {
  kind = [];
  hostname = lit "127.0.0.1";
  port = 27017;
  username = [];
  password = [];
  filename = [];
  database = lit "dazeus";
  options = [];
}

-- libdazeus-irc's records, with the fields that the bot sets
pub record ServerConfig : Type 0 where
  pub host : Str
  pub port : ℤ
  pub priority : ℤ
  pub ssl : Bool
  pub ssl_verify : Bool

pub record NetworkConfig : Type 0 where
  pub name : Str
  pub display_name : Str
  pub nick_name : Str
  pub user_name : Str
  pub full_name : Str
  pub password : Str
  pub auto_connect : Bool
  pub servers : List ServerConfig
