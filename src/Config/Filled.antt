-- ===== src/Config/Filled.antt =====
-- The options of each section (src/config.cpp, `option`) keep the open blocks.
use dazeus_core.Base.{◌≡◌, refl, not, List, [], ◌∷◌, none, some}
use dazeus_core.Text.{Str, is}
use dazeus_core.External.{Utils}
use dazeus_core.Run.{done, Gives, gives, Gives-if}
use dazeus_core.Settings.{
  GlobalConfig, PluginConfig, SocketConfig, DatabaseConfig, ServerConfig, NetworkConfig,
}
use dazeus_core.Config.{
  Section, s_root, s_socket, s_database, s_network, s_server, s_plugin, ConfigReaderState, Cmd,
  is_some,
}
use dazeus_core.Config.Options.{
  is_bad_port, option_root, option_socket, option_database, option_network, option_server,
  option_plugin, option_var, option_scope,
}
use dazeus_core.Config.Sections.{
  Blocks, IsConsistent, After, in_socket, in_database, in_network, in_server, in_plugin, shift,
}

-- a callback that only fills the block of the section
module _ (s : ConfigReaderState) where
  filled_socket :
      s.current_section ≡ s_socket
      → Blocks s_socket s
      → (block : SocketConfig) → IsConsistent (record s { socket_progress = some block })
  unfolding in_socket in_database in_network in_server in_plugin is_some
  filled_socket at c block = simp at (record {
    socket = refl;
    database = c.database;
    network = c.network;
    server = c.server;
    plugin = c.plugin;
  })

  filled_database :
      s.current_section ≡ s_database
      → Blocks s_database s
      → (block : DatabaseConfig) → IsConsistent (record s { database_progress = some block })
  unfolding in_socket in_database in_network in_server in_plugin is_some
  filled_database at c block = simp at (record {
    socket = c.socket;
    database = λ h. refl;
    network = c.network;
    server = c.server;
    plugin = c.plugin;
  })

  filled_network :
      s.current_section ≡ s_network
      → Blocks s_network s
      → (block : NetworkConfig) → IsConsistent (record s { network_progress = some block })
  unfolding in_socket in_database in_network in_server in_plugin is_some
  filled_network at c block = simp at (record {
    socket = c.socket;
    database = c.database;
    network = refl;
    server = c.server;
    plugin = c.plugin;
  })

  filled_server :
      s.current_section ≡ s_server
      → Blocks s_server s
      → (block : ServerConfig) → IsConsistent (record s { server_progress = some block })
  unfolding in_socket in_database in_network in_server in_plugin is_some
  filled_server at c block = simp at (record {
    socket = c.socket;
    database = c.database;
    network = c.network;
    server = refl;
    plugin = c.plugin;
  })

  filled_plugin :
      s.current_section ≡ s_plugin
      → Blocks s_plugin s
      → (block : PluginConfig) → IsConsistent (record s { plugin_progress = some block })
  unfolding in_socket in_database in_network in_server in_plugin is_some
  filled_plugin at c block = simp at (record {
    socket = c.socket;
    database = c.database;
    network = c.network;
    server = c.server;
    plugin = refl;
  })

  pub complained :
      {here : Section}
      → s.current_section ≡ here
      → Blocks here s
      → (why : Str) → IsConsistent (record s { error = why })
  complained at c why = simp at (record {
    socket = c.socket;
    database = c.database;
    network = c.network;
    server = c.server;
    plugin = c.plugin;
  })

  refilled :
      (g : GlobalConfig)
      → s.current_section ≡ s_root
      → Blocks s_root s
      → IsConsistent (record s { global_progress = g })
  refilled g at c = simp at (record {
    socket = c.socket;
    database = c.database;
    network = c.network;
    server = c.server;
    plugin = c.plugin;
  })

module _ (u : Utils) (s : ConfigReaderState) (cmd : Cmd) where
  pub option_socket-Gives :
      (block : SocketConfig)
      → s.current_section ≡ s_socket
      → Blocks s_socket s
      → Gives After (option_socket u s cmd block)
  unfolding option_socket
  option_socket-Gives block at c =
      Gives-if (is cmd.name "type") (λ _. fill)
        λ _.
          Gives-if (is cmd.name "path") (λ _. fill)
            λ _.
              Gives-if (is cmd.name "host") (λ _. fill)
                λ _.
                  Gives-if (is cmd.name "port")
                    (λ _. Gives-if (is_bad_port cmd.value) (λ _. gives (shift s at c)) (λ _. fill))
                    λ _. gives (complained s at c _)
    where
      fill : {b : SocketConfig} → Gives After (done (record s { socket_progress = some b }, none))
      fill = gives (filled_socket s at c _)

  pub option_database-Gives :
      (block : DatabaseConfig)
      → s.current_section ≡ s_database
      → Blocks s_database s
      → Gives After (option_database u s cmd block)
  unfolding option_database
  option_database-Gives block at c =
      Gives-if (is cmd.name "type") (λ _. fill)
        λ _.
          Gives-if (is cmd.name "host") (λ _. fill)
            λ _.
              Gives-if (is cmd.name "port") (λ _. fill)
                λ _.
                  Gives-if (is cmd.name "username") (λ _. fill)
                    λ _.
                      Gives-if (is cmd.name "password") (λ _. fill)
                        λ _.
                          Gives-if (is cmd.name "filename") (λ _. fill)
                            λ _.
                              Gives-if (is cmd.name "database") (λ _. fill)
                                λ _.
                                  Gives-if (is cmd.name "options") (λ _. fill)
                                    λ _. gives (complained s at c _)
    where
      fill :
          {b : DatabaseConfig} → Gives After (done (record s { database_progress = some b }, none))
      fill = gives (filled_database s at c _)

  pub option_network-Gives :
      (block : NetworkConfig)
      → s.current_section ≡ s_network
      → Blocks s_network s
      → Gives After (option_network u s cmd block)
  unfolding option_network
  option_network-Gives block at c =
      Gives-if (is cmd.name "autoconnect") (λ _. fill)
        λ _.
          Gives-if (is cmd.name "nickname") (λ _. fill)
            λ _.
              Gives-if (is cmd.name "username") (λ _. fill)
                λ _.
                  Gives-if (is cmd.name "fullname") (λ _. fill)
                    λ _.
                      Gives-if (is cmd.name "password") (λ _. fill) λ _. gives (complained s at c _)
    where
      fill : {b : NetworkConfig} → Gives After (done (record s { network_progress = some b }, none))
      fill = gives (filled_network s at c _)

  pub option_server-Gives :
      (block : ServerConfig)
      → s.current_section ≡ s_server
      → Blocks s_server s
      → Gives After (option_server u s cmd block)
  unfolding option_server
  option_server-Gives block at c =
      Gives-if (is cmd.name "host") (λ _. fill)
        λ _.
          Gives-if (is cmd.name "port") (λ _. fill)
            λ _.
              Gives-if (is cmd.name "priority") (λ _. fill)
                λ _.
                  Gives-if (is cmd.name "ssl") (λ _. fill)
                    λ _.
                      Gives-if (is cmd.name "sslverify") (λ _. fill)
                        λ _. gives (complained s at c _)
    where
      fill : {b : ServerConfig} → Gives After (done (record s { server_progress = some b }, none))
      fill = gives (filled_server s at c _)

  pub option_root-Gives :
      s.current_section ≡ s_root → Blocks s_root s → Gives After (option_root u s cmd)
  unfolding option_root
  option_root-Gives at c =
      Gives-if (is cmd.name "nickname") (λ _. fill)
        λ _.
          Gives-if (is cmd.name "username") (λ _. fill)
            λ _.
              Gives-if (is cmd.name "fullname") (λ _. fill)
                λ _.
                  Gives-if (is cmd.name "plugindirectory") (λ _. fill)
                    λ _.
                      Gives-if (is cmd.name "highlight") (λ _. fill)
                        λ _. gives (complained s at c _)
    where
      fill : {g : GlobalConfig} → Gives After (done (record s { global_progress = g }, none))
      fill = gives (refilled s _ at c)

  module _ (block : PluginConfig) (at : s.current_section ≡ s_plugin) (c : Blocks s_plugin s) where
    option_var-Gives : (vars : List Str) → Gives After (option_var u s block vars)
    unfolding option_var
    option_var-Gives [] = gives (complained s at c _)
    option_var-Gives (k ∷ []) = gives (complained s at c _)
    option_var-Gives (k ∷ v ∷ []) = gives (filled_plugin s at c _)
    option_var-Gives (k ∷ v ∷ w ∷ more) = gives (complained s at c _)

    option_scope-Gives : (scope : Str) → Gives After (option_scope u s block scope)
    unfolding option_scope
    option_scope-Gives scope =
        Gives-if (is scope "network") (λ _. gives (filled_plugin s at c _))
          λ _.
            Gives-if (not (is scope "global")) (λ _. gives (complained s at c _))
              λ _. gives (shift s at c)

    pub option_plugin-Gives : Gives After (option_plugin u s cmd block)
    unfolding option_plugin
    option_plugin-Gives =
        Gives-if (is cmd.name "path") (λ _. gives (filled_plugin s at c _))
          λ _.
            Gives-if (is cmd.name "executable") (λ _. gives (filled_plugin s at c _))
              λ _.
                Gives-if (is cmd.name "scope")
                  (λ _. option_scope-Gives (u.str_to_lower (u.trim cmd.str)))
                  λ _.
                    Gives-if (is cmd.name "parameters") (λ _. gives (filled_plugin s at c _))
                      λ _.
                        Gives-if (is cmd.name "var") (λ _. option_var-Gives cmd.list)
                          λ _. gives (complained s at c _)
