-- ===== src/Config/Reading.antt =====
-- The command loop and `ConfigReader::read` (src/config.cpp).
use dazeus_core.Base.{
  Bool, not, ◌||◌, List, [], ◌∷◌, ◌++◌, Option, none, some, if◌then◌else◌, is_empty,
}
use dazeus_core.Text.{Str, lit}
use dazeus_core.External.{Utils}
use dazeus_core.Run.{Run, done, dies, assert_failed, ◌>>=◌}
use dazeus_core.Settings.{GlobalConfig, PluginConfig, SocketConfig, DatabaseConfig, NetworkConfig}
use dazeus_core.Config.{
  ConfigReaderState, Cmd, Defaults, Reply, initial, is_some, sect_open, sect_close,
}
use dazeus_core.Config.Options.{option}

-- a call that dotconf makes
pub data Callback : Type 0 where
  opens closes sets : Cmd → Callback

-- `error_handler`
unfoldable pub error_handler : ConfigReaderState → Str → ConfigReaderState
error_handler s msg =
    if is_empty s.error
    then record s { error = msg }
    else record s { error = s.error ++ (lit "\n" ++ msg) }

-- what `read` sets in the reader
pub record Settings : Type 0 where
  pub sockets : List SocketConfig
  pub networks : List NetworkConfig
  pub plugins : List PluginConfig
  pub global : GlobalConfig
  pub database : DatabaseConfig

pub data ReadResult : Type 0 where
  is_read : Settings → ReadResult
  throws : Str → ReadResult

unfoldable pub finish_blocks : ConfigReaderState → Option DatabaseConfig → Run ReadResult
unfolding is_some
finish_blocks s none = done (throws (lit "No Database block defined in config file."))
finish_blocks s (some db) =
    if is_some s.socket_progress
      || is_some s.network_progress
      || is_some s.server_progress
      || is_some s.plugin_progress
    then dies assert_failed
    else done (
        is_read (record {
          sockets = s.sockets;
          networks = s.networks;
          plugins = s.plugins;
          global = s.global_progress;
          database = db;
        }))

-- `loop_ok` is the result of `dotconf_command_loop`
unfoldable pub finish : Bool → ConfigReaderState → Run ReadResult
unfolding finish_blocks
finish loop_ok s =
    if not loop_ok || not (is_empty s.error)
    then done (throws (if is_empty s.error then lit "Error reading config file." else s.error))
    else finish_blocks s s.database_progress

module _ (u : Utils) (d : Defaults) where
  unfoldable pub call : ConfigReaderState → Callback → Reply
  unfolding sect_open sect_close option
  call s (opens cmd) = sect_open d s.current_section s cmd
  call s (closes cmd) = sect_close s.current_section s cmd
  call s (sets cmd) = option u s.current_section s cmd

  unfoldable pub after_call : ConfigReaderState × Option Str → ConfigReaderState
  unfolding error_handler
  after_call (s, none) = s
  after_call (s, some msg) = error_handler s msg

  -- the calls of one file; where dotconf stops at an error, the list ends there
  unfoldable pub command_loop : ConfigReaderState → List Callback → Run ConfigReaderState
  unfolding call after_call
  command_loop s [] = done s
  command_loop s (c ∷ cs) = call s c >>= λ r. command_loop (after_call r) cs

  -- `created` is whether `dotconf_create` could open the file
  unfoldable pub read : Bool → Bool → List Callback → Run ReadResult
  unfolding command_loop finish initial
  read created loop_ok calls =
      if not created
      then done (throws (lit "Error opening config file."))
      else command_loop initial calls >>= λ s. finish loop_ok s
