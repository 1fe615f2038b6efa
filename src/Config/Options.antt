-- ===== src/Config/Options.antt =====
-- The callback `option` of src/config.cpp: one function for each section.
use dazeus_core.Base.{
  ◌-◌, ◌^◌, Bool, true, not, ◌||◌, List, [], ◌∷◌, ◌++◌, none, some, ltb, if◌then◌else◌,
}
use dazeus_core.Text.{Str, lit, is}
use dazeus_core.Int.{ℤ, pos, negsuc, to_uint16}
use dazeus_core.Map
use dazeus_core.External.{Utils}
use dazeus_core.Run.{done, ◌>>=◌}
use dazeus_core.Settings.{PluginConfig, SocketConfig, DatabaseConfig, ServerConfig, NetworkConfig}
use dazeus_core.Config.{
  Section, s_root, s_socket, s_database, s_network, s_server, s_plugin, ConfigReaderState, Cmd,
  Reply, value_of, asserted,
}

-- `s->error = why; return "Configuration file contains errors";`
abbrev complain : ConfigReaderState → Str → Reply
complain s why = done (record s { error = why }, some (lit "Configuration file contains errors"))

-- `value > numeric_limits<uint16_t>::max() || value < 0`
unfoldable pub is_bad_port : ℤ → Bool
is_bad_port (pos n) = ltb (2 ^ 16 - 1) n
is_bad_port (negsuc n) = true

module _ (u : Utils) where
  unfoldable bool_is_true : Str → Bool
  bool_is_true s = let t = u.str_to_lower (u.trim s) in is t "true" || is t "yes" || is t "1"

  unfoldable pub option_root : ConfigReaderState → Cmd → Reply
  option_root s cmd =
      let g = s.global_progress in
      let text = u.trim cmd.str in
      if is cmd.name "nickname"
      then done (record s { global_progress = record g { default_nickname = text } }, none)
      else if is cmd.name "username"
      then done (record s { global_progress = record g { default_username = text } }, none)
      else if is cmd.name "fullname"
      then done (record s { global_progress = record g { default_fullname = text } }, none)
      else if is cmd.name "plugindirectory"
      then done (record s { global_progress = record g { plugindirectory = text } }, none)
      else if is cmd.name "highlight"
      then done (record s { global_progress = record g { highlight = text } }, none)
      else complain s (lit "Invalid option name in root context: " ++ cmd.name)

  abbrev set_socket : ConfigReaderState → SocketConfig → Reply
  set_socket s sc = done (record s { socket_progress = some sc }, none)

  unfoldable pub option_socket : ConfigReaderState → Cmd → SocketConfig → Reply
  unfolding is_bad_port to_uint16
  option_socket s cmd sc =
      let text = u.trim cmd.str in
      if is cmd.name "type"
      then set_socket s (record sc { kind = text })
      else if is cmd.name "path"
      then set_socket s (record sc { path = text })
      else if is cmd.name "host"
      then set_socket s (record sc { host = text })
      else if is cmd.name "port"
      then (if is_bad_port cmd.value
          then done (s, some (lit "Invalid value for 'port'"))
          else set_socket s (record sc { port = to_uint16 cmd.value }))
      else complain s (lit "Invalid option name in socket context: " ++ cmd.name)

  abbrev set_database : ConfigReaderState → DatabaseConfig → Reply
  set_database s dc = done (record s { database_progress = some dc }, none)

  unfoldable pub option_database : ConfigReaderState → Cmd → DatabaseConfig → Reply
  unfolding to_uint16
  option_database s cmd dc =
      let text = u.trim cmd.str in
      if is cmd.name "type"
      then set_database s (record dc { kind = text })
      else if is cmd.name "host"
      then set_database s (record dc { hostname = text })
      else if is cmd.name "port"
      then set_database s (record dc { port = to_uint16 cmd.value })
      else if is cmd.name "username"
      then set_database s (record dc { username = text })
      else if is cmd.name "password"
      then set_database s (record dc { password = text })
      else if is cmd.name "filename"
      then set_database s (record dc { filename = text })
      else if is cmd.name "database"
      then set_database s (record dc { database = text })
      else if is cmd.name "options"
      then set_database s (record dc { options = text })
      else complain s (lit "Invalid option name in database context: " ++ cmd.name)

  abbrev set_network : ConfigReaderState → NetworkConfig → Reply
  set_network s nc = done (record s { network_progress = some nc }, none)

  unfoldable pub option_network : ConfigReaderState → Cmd → NetworkConfig → Reply
  unfolding bool_is_true
  option_network s cmd nc =
      let text = u.trim cmd.str in
      if is cmd.name "autoconnect"
      then set_network s (record nc { auto_connect = bool_is_true cmd.str })
      else if is cmd.name "nickname"
      then set_network s (record nc { nick_name = text })
      else if is cmd.name "username"
      then set_network s (record nc { user_name = text })
      else if is cmd.name "fullname"
      then set_network s (record nc { full_name = text })
      else if is cmd.name "password"
      then set_network s (record nc { password = text })
      else complain s (lit "Invalid option name in network context: " ++ cmd.name)

  abbrev set_server : ConfigReaderState → ServerConfig → Reply
  set_server s sc = done (record s { server_progress = some sc }, none)

  unfoldable pub option_server : ConfigReaderState → Cmd → ServerConfig → Reply
  unfolding bool_is_true
  option_server s cmd sc =
      if is cmd.name "host"
      then set_server s (record sc { host = u.trim cmd.str })
      else if is cmd.name "port"
      then set_server s (record sc { port = cmd.value })
      else if is cmd.name "priority"
      then set_server s (record sc { priority = cmd.value })
      else if is cmd.name "ssl"
      then set_server s (record sc { ssl = bool_is_true cmd.str })
      else if is cmd.name "sslverify"
      then set_server s (record sc { ssl_verify = bool_is_true cmd.str })
      else complain s (lit "Invalid option name in server context: " ++ cmd.name)

  abbrev set_plugin : ConfigReaderState → PluginConfig → Reply
  set_plugin s pc = done (record s { plugin_progress = some pc }, none)

  -- `pc.config[trim(list[0])] = trim(list[1])`, for two parameters exactly
  unfoldable pub option_var : ConfigReaderState → PluginConfig → List Str → Reply
  option_var s pc (k ∷ v ∷ []) =
      set_plugin s (record pc { config = Map.assign (u.trim k) (u.trim v) pc.config })
  option_var s pc _ = complain s (lit "Invalid amount of parameters to Var in plugin context")

  unfoldable pub option_scope : ConfigReaderState → PluginConfig → Str → Reply
  option_scope s pc scope =
      if is scope "network"
      then set_plugin s (record pc { per_network = true })
      else if not (is scope "global")
      then complain s (lit "Invalid value for Scope for plugin " ++ pc.name)
      else done (s, none)

  unfoldable pub option_plugin : ConfigReaderState → Cmd → PluginConfig → Reply
  unfolding option_scope option_var
  option_plugin s cmd pc =
      if is cmd.name "path"
      then set_plugin s (record pc { path = u.trim cmd.str })
      else if is cmd.name "executable"
      then set_plugin s (record pc { executable = u.trim cmd.str })
      else if is cmd.name "scope"
      then option_scope s pc (u.str_to_lower (u.trim cmd.str))
      else if is cmd.name "parameters"
      then set_plugin s (record pc { parameters = u.trim cmd.str })
      else if is cmd.name "var"
      then option_var s pc cmd.list
      else complain s (lit "Invalid option name in plugin context: " ++ cmd.name)

  -- The current section chooses the block that is set; it must be there.
  unfoldable pub option : Section → ConfigReaderState → Cmd → Reply
  unfolding value_of asserted option_root option_socket option_database option_network option_server
      option_plugin
  option s_root s cmd = option_root s cmd
  option s_socket s cmd = value_of s.socket_progress >>= λ sc. option_socket s cmd sc
  option s_database s cmd = value_of s.database_progress >>= λ dc. option_database s cmd dc
  option s_network s cmd = asserted s.network_progress >>= λ nc. option_network s cmd nc
  option s_server s cmd = asserted s.server_progress >>= λ sc. option_server s cmd sc
  option s_plugin s cmd = value_of s.plugin_progress >>= λ pc. option_plugin s cmd pc
