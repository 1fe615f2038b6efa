-- ===== src/Config.antt =====
-- `ConfigReader::read` and its callbacks (src/config.cpp). The dotconf library reads the file and
-- makes the calls: they are a list here.
pub mod Options
pub mod Sections
pub mod Reading
pub mod Filled
pub mod Safety
pub mod Ending
use dazeus_core.Base.{
  ℕ, ◌-◌, ◌^◌, Bool, true, false, not, ◌&&◌, ◌||◌, List, [], ◌∷◌, ◌++◌, Option, none, some, ltb,
  leb, ◌==◌, if◌then◌else◌, is_empty, length, take,
}
use dazeus_core.Text.{Str, lit, is}
use dazeus_core.Int.{ℤ, pos, negsuc, to_uint16}
use dazeus_core.Map
use dazeus_core.External.{Utils}
use dazeus_core.Run.{Run, done, dies, assert_failed, uncaught_exception, undefined_behaviour, ◌>>=◌}
use dazeus_core.Settings.{
  GlobalConfig, default_global, PluginConfig, new_plugin_config, SocketConfig, new_socket_config,
  DatabaseConfig, default_database, ServerConfig, NetworkConfig,
}

pub data Section : Type 0 where
  s_root s_socket s_database s_network s_server s_plugin : Section

pub record ConfigReaderState : Type 0 where
  pub current_section : Section
  pub sockets : List SocketConfig
  pub networks : List NetworkConfig
  pub plugins : List PluginConfig
  pub global_progress : GlobalConfig
  pub socket_progress : Option SocketConfig
  pub database_progress : Option DatabaseConfig
  pub network_progress : Option NetworkConfig
  pub server_progress : Option ServerConfig
  pub plugin_progress : Option PluginConfig
  pub error : Str

-- `ConfigReaderState()`, and `state->global_progress = GlobalConfig()` in `read`; nothing takes the
-- global block away again
unfoldable pub initial : ConfigReaderState
unfolding default_global
initial = record {
  current_section = s_root;
  sockets = [];
  networks = [];
  plugins = [];
  global_progress = default_global;
  socket_progress = none;
  database_progress = none;
  network_progress = none;
  server_progress = none;
  plugin_progress = none;
  error = [];
}

-- What dotconf hands to a callback: `cmd->name`, `cmd->data.str`, `cmd->data.value`, and
-- `cmd->data.list` with `cmd->arg_count` entries. Where a name takes no argument, `data.str` is NULL;
-- `str` is then empty, and no callback reads it.
pub record Cmd : Type 0 where
  pub name : Str
  pub str : Str
  pub value : ℤ
  pub list : List Str

-- what `new NetworkConfig` and `new ServerConfig` hold, which is libdazeus-irc's choice
pub record Defaults : Type 0 where
  pub network : NetworkConfig
  pub server : ServerConfig

-- A callback returns NULL, or the text of an error.
abbrev pub Reply : Type 0
Reply = Run (ConfigReaderState × Option Str)

abbrev fine : ConfigReaderState → Reply
fine s = done (s, none)

abbrev refuse : ConfigReaderState → Str → Reply
refuse s why = done (s, some why)

unfoldable pub is_some {ℓ} : {A : Type ℓ} → Option A → Bool
is_some none = false
is_some (some a) = true

-- `s.resize(s.length() - 1)`, which throws on the empty string
unfoldable pub without_last : Str → Run Str
without_last s = if is_empty s then dies uncaught_exception else done (take (length s - 1) s)

unfoldable pub open_network : Defaults → ConfigReaderState → Str → ConfigReaderState
open_network d s name = record s {
  current_section = s_network;
  network_progress = some (record d.network {
    name = name;
    display_name = name;
    nick_name = s.global_progress.default_nickname;
    user_name = s.global_progress.default_username;
    full_name = s.global_progress.default_fullname;
  });
}

unfoldable pub open_plugin : ConfigReaderState → Str → Reply
unfolding new_plugin_config
open_plugin s name =
    if is_empty name
    then refuse s (lit "All plugins must have a name in their <Plugin> tag.")
    else fine
        (record s { current_section = s_plugin; plugin_progress = some (new_plugin_config name) })

-- `sect_open` in the root section
unfoldable pub open_root : Defaults → ConfigReaderState → Cmd → Reply
unfolding open_network open_plugin without_last is_some new_socket_config default_database
open_root d s cmd =
    if is_some s.socket_progress || is_some s.network_progress || is_some s.server_progress
    then dies assert_failed
    else if is cmd.name "<socket>"
    then fine (record s { current_section = s_socket; socket_progress = some new_socket_config })
    else if is cmd.name "<database>"
    then (if is_some s.database_progress
        then refuse s (lit "More than one Database block defined in configuration file.")
        else fine
            (record s { current_section = s_database; database_progress = some default_database }))
    else if is cmd.name "<network"
    then (without_last cmd.str >>= λ name. fine (open_network d s name))
    else if is cmd.name "<plugin"
    then (without_last cmd.str >>= λ name. open_plugin s name)
    else refuse s (lit "Logic error")

-- `sect_open` in a network section; any other block in it is passed over
unfoldable pub open_in_network : Defaults → ConfigReaderState → Cmd → Reply
unfolding is_some
open_in_network d s cmd =
    if not (is_some s.network_progress) || is_some s.server_progress
    then dies assert_failed
    else if is cmd.name "<server>"
    then fine (record s {
      current_section = s_server;
      server_progress = some (record d.server { host = [] });
    })
    else fine s

unfoldable pub sect_open : Defaults → Section → ConfigReaderState → Cmd → Reply
unfolding open_root open_in_network
sect_open d s_root s cmd = open_root d s cmd
sect_open d s_network s cmd = open_in_network d s cmd
sect_open d _ s cmd = refuse s (lit "Logic error")

-- `*s->socket_progress` of an empty optional has no defined value
unfoldable pub value_of {ℓ} : {A : Type ℓ} → Option A → Run A
value_of none = dies undefined_behaviour
value_of (some a) = done a

-- `assert(nc)` on an optional
unfoldable pub asserted {ℓ} : {A : Type ℓ} → Option A → Run A
asserted none = dies assert_failed
asserted (some a) = done a

unfoldable pub close_server : ConfigReaderState → Reply
unfolding value_of
close_server s = value_of s.network_progress >>= λ net. value_of s.server_progress >>= λ server.
    fine (record s {
      network_progress = some (record net { servers = net.servers ++ server ∷ [] });
      server_progress = none;
      current_section = s_network;
    })

unfoldable pub sect_close : Section → ConfigReaderState → Cmd → Reply
unfolding value_of close_server
sect_close s_root s cmd = refuse s (lit "Logic error")
sect_close s_socket s cmd =
    if is cmd.name "</socket>"
    then (value_of s.socket_progress >>= λ sc. fine (record s {
      sockets = s.sockets ++ sc ∷ [];
      socket_progress = none;
      current_section = s_root;
    }))
    else refuse s (lit "Logic error")
sect_close s_database s cmd =
    if is cmd.name "</database>"
    then fine (record s { current_section = s_root })
    else refuse s (lit "Logic error")
sect_close s_network s cmd =
    if is cmd.name "</network>"
    then (value_of s.network_progress >>= λ net. fine (record s {
      networks = s.networks ++ net ∷ [];
      network_progress = none;
      current_section = s_root;
    }))
    else refuse s (lit "Logic error")
sect_close s_server s cmd =
    if is cmd.name "</server>" then close_server s else refuse s (lit "Logic error")
sect_close s_plugin s cmd =
    if is cmd.name "</plugin>"
    then (value_of s.plugin_progress >>= λ pc. fine (record s {
      plugins = s.plugins ++ pc ∷ [];
      plugin_progress = none;
      current_section = s_root;
    }))
    else refuse s (lit "Logic error")
