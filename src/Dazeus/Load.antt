-- ===== src/Dazeus/Load.antt =====
-- `DaZeus::loadConfig` (src/dazeus.cpp).
use dazeus_core.Connections.Opening.{Opening, init}
use dazeus_core.Base.{
  ℕ, Bool, true, false, not, List, [], Option, none, some, if◌then◌else◌, is_empty,
}
use dazeus_core.Text.{Str, lit}
use dazeus_core.External.{Utils}
use dazeus_core.Run.{
  Run, done, dies, out_of_fuel, assert_failed, uncaught_exception, undefined_behaviour, ◌>>=◌,
}
use dazeus_core.Settings.{DatabaseConfig, NetworkConfig, get_plugin_socket, to_string}
use dazeus_core.Config.{Defaults}
use dazeus_core.Config.Reading.{Settings, Callback, ReadResult, is_read, throws, read}
use dazeus_core.Monitor.{Monitor, Host}
use dazeus_core.Monitor.Reload.{
  Pass, Reloaded, reloaded, refused, config_reloaded, new_plugin_monitor,
}
use dazeus_core.Requests.{Outcome, returns, crashes, Database}
use dazeus_core.Dazeus.{
  DaZeus, Link, Pointer, null, dangling, object, current, Built, Backend, connect_database,
  update_networks, drop_gone,
}
use dazeus_core.Dazeus.Inits.{next_init, init_text}

-- What stands outside of the bot: the libraries, the operating system, how the bot was built, and
-- the backends, `fresh` before `open` and `opens` after it.
pub record World (D : Type 0) : Type 0 where
  pub utils : Utils
  pub defaults : Defaults
  pub host : Host
  pub built : Built
  pub fresh : Backend → DatabaseConfig → D
  pub opens : Backend → DatabaseConfig → Outcome D
  pub db : Database D
  pub auto_connect_enabled : NetworkConfig → Bool

-- What happens during one `loadConfig`: what dotconf makes of the file, what the sockets meet where
-- they are opened, and the clock and the
-- children that the plugin monitor sees. `left` is the monitor after an exception inside of
-- `runOnce`, which may have come to any of the plugins.
pub record Attempt : Type 0 where
  pub created : Bool
  pub loop_ok : Bool
  pub calls : List Callback
  pub openings : ℕ → Opening
  pub soft : Pass
  pub hard : Pass
  pub last : Pass
  pub left : Monitor

-- the host as the monitor sees it: its own plugin directory, and the socket of the configuration
unfoldable pub host_of : Host → Str → Settings → Host
unfolding get_plugin_socket to_string
host_of h directory set = record h {
  plugin_directory = directory;
  socket = get_plugin_socket set.sockets >>= to_string;
}

-- the end of `configReloaded` in its `try` block
unfoldable pub caught_reload : Monitor → Run Reloaded → Run (Monitor × Bool)
caught_reload left (done (reloaded m sent)) = done (m, true)
caught_reload left (done (refused m why)) = done (m, false)
caught_reload left (dies uncaught_exception) = done (left, false)
caught_reload left (dies why) = dies why
caught_reload left out_of_fuel = out_of_fuel

-- `plugin_monitor_`, which is made once, with the plugin directory of that time
unfoldable pub monitor_of : Settings → Option (Str × Monitor) → Str × Monitor
unfolding new_plugin_monitor
monitor_of set none = (set.global.plugindirectory, new_plugin_monitor)
monitor_of set (some m) = m

module _ {D : Type 0} (w : World D) (a : Attempt) where
  -- `plugins_->setDatabase(database_)`, or `new PluginComm`, whose `init` opens the sockets and
  -- changes them in the configuration
  unfoldable pub set_plugins : Settings → DaZeus D → Option Link → Run (DaZeus D × Settings)
  set_plugins set s (some link) = done (record s { plugins = some current }, set)
  set_plugins set s none = init a.openings set.sockets >>= λ v.
      let set' = record set { sockets = v.configs } in
      done (record s { plugins = some current; settings = some set' }, set')

  unfoldable pub reload_plugins : Settings → DaZeus D → Run (DaZeus D × Bool)
  unfolding monitor_of host_of caught_reload
  reload_plugins set s =
      let (directory, m) = monitor_of set s.plugin_monitor in
      caught_reload a.left (
        config_reloaded w.utils (host_of w.host directory set) set.networks set.plugins a.soft
          a.hard a.last m)
      >>= λ (m', ok). done (record s { plugin_monitor = some (directory, m') }, ok)

  unfoldable pub reload_networks : Settings → DaZeus D → DaZeus D
  reload_networks set s =
      drop_gone set.networks (update_networks w.auto_connect_enabled set.networks s)

  -- an exception of the database is caught nowhere
  unfoldable pub uncaught : {A : Type 0} → D × Outcome A → Run (D × A)
  uncaught (d, returns x) = done (d, x)
  uncaught (d, Outcome.throws why) = dies uncaught_exception
  uncaught (d, crashes why) = dies why

  unfoldable pub count_init : DaZeus D → Pointer D → Run (DaZeus D)
  unfolding uncaught init_text lit
  count_init s null = dies undefined_behaviour
  count_init s dangling = dies undefined_behaviour
  count_init s (object d) =
      uncaught (w.db.property d (lit "dazeus.numinits") [] [] []) >>= λ (d', text).
      next_init text >>= λ n.
      uncaught (w.db.set_property d' (lit "dazeus.numinits") (init_text n) [] [] []) >>= λ (d'', v).
      done (record s { database = object d'' })

  -- the plugins, the networks and the count
  unfoldable pub follow_settings : Settings → DaZeus D → Run (DaZeus D × Bool)
  follow_settings set s = reload_plugins set s >>= λ (s1, ok).
      if not ok
      then done (s1, false)
      else let s2 = reload_networks set s1 in count_init s2 s2.database >>= λ s3. done (s3, true)

  -- what follows the reading of the file
  unfoldable pub apply_settings : Settings → DaZeus D → Run (DaZeus D × Bool)
  unfolding set_plugins follow_settings
  apply_settings set s =
      connect_database w.built w.fresh w.opens set.database s >>= λ (s1, connected).
      if not connected
      then done (s1, false)
      else set_plugins set s1 s1.plugins >>= λ (s2, set'). follow_settings set' s2

  -- `is_read` is taken back before the file is read
  unfoldable pub with_result : DaZeus D → ReadResult → Run (DaZeus D × Bool)
  with_result s (is_read set) =
      apply_settings set (record s { settings = some set; is_read = true })
  with_result s (throws why) = done (record s { is_read = false }, false)

  unfoldable pub load_config : DaZeus D → Run (DaZeus D × Bool)
  load_config s =
      if is_empty s.config_file_name
      then dies assert_failed
      else read w.utils w.defaults a.created a.loop_ok a.calls >>= λ r. with_result s r
