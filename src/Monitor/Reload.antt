-- ===== src/Monitor/Reload.antt =====
-- `PluginMonitor::configReloaded`, `kill_plugins` and `stop_plugin` (src/pluginmonitor.cpp): the map of
-- the plugins after the configuration was read again.
pub mod Register
pub mod Kept
pub mod Follows
pub mod Signals
pub mod Ending
use dazeus_core.Base.{
  ℕ, ◌≡◌, Bool, true, false, not, ◌&&◌, ◌||◌, List, [], ◌∷◌, ◌++◌, Option, none, some, ltb, ◌==◌,
  if◌then◌else◌, is_empty,
}
use dazeus_core.Text.{Str, lit}
use dazeus_core.Map
use dazeus_core.External.{Utils}
use dazeus_core.Run.{Run, done, dies, assert_failed, ◌>>=◌}
use dazeus_core.Settings.{PluginConfig, NetworkConfig}
use dazeus_core.Monitor.{PluginState, Host, Monitor, ChildStatus, run_once}

-- the constructor of `PluginState`, with its assertions
unfoldable pub new_plugin_state : PluginConfig → Str → Run PluginState
new_plugin_state config network =
    if not (config.per_network || is_empty network)
    then dies assert_failed
    else if not (not config.per_network || not (is_empty network))
    then dies assert_failed
    else done (record {
      config = config;
      will_autostart = true;
      pid = 0;
      network = network;
      num_failures = 0;
      last_start = 0;
    })

-- what a plugin that is in the map already gets
unfoldable pub reset_plugin : PluginConfig → PluginState → PluginState
reset_plugin config state = record state {
  num_failures = 0;
  will_autostart = true;
  config = config;
}

-- `plugins_seen` and `state_`
pub record Registry : Type 0 where
  pub seen : List Str
  pub states : List (Str × PluginState)

-- The registry so far, and the text of the exception if one was thrown.
abbrev pub Reply : Type 0
Reply = Run (Registry × Option Str)

abbrev next : Registry × Option Str → (Registry → Reply) → Reply
next (r, none) k = k r
next (r, some why) k = done (r, some why)

-- the branches on `state_.find(state_name)`
unfoldable pub enter : PluginConfig → Str → Str → Registry → Option PluginState → Reply
unfolding reset_plugin
enter config name network r none = new_plugin_state config network >>= λ s.
    done (record r { states = Map.assign name s r.states }, none)
enter config name network r (some s) =
    done (record r { states = Map.assign name (reset_plugin config s) r.states }, none)

-- one plugin under the name `name`, for one network or for none
unfoldable pub register : Utils → PluginConfig → Str → Str → Registry → Reply
register u config name network r =
    if u.contains r.seen name
    then done (r, some (lit "Multiple plugins exist with name " ++ name))
    else enter config name network (record r { seen = r.seen ++ name ∷ [] })
        (Map.find name r.states)

unfoldable pub state_name : PluginConfig → NetworkConfig → Str
unfolding lit
state_name config network = config.name ++ (lit "!" ++ network.name)

-- the loop over the networks
unfoldable pub register_networks : Utils → PluginConfig → List NetworkConfig → Registry → Reply
register_networks u config [] r = done (r, none)
register_networks u config (n ∷ ns) r = register u config (state_name config n) n.name r >>= λ q.
    next q (λ r'. register_networks u config ns r')

unfoldable pub register_plugin : Utils → List NetworkConfig → PluginConfig → Registry → Reply
unfolding register_networks
register_plugin u networks config r =
    if is_empty config.name
    then dies assert_failed
    else if config.per_network
    then register_networks u config networks r
    else register u config config.name [] r

-- the loop over the plugins
unfoldable pub register_all : Utils → List NetworkConfig → List PluginConfig → Registry → Reply
unfolding register_plugin
register_all u networks [] r = done (r, none)
register_all u networks (p ∷ ps) r =
    register_plugin u networks p r >>= λ q. next q (λ r'. register_all u networks ps r')

-- the plugins that are not in the configuration: the map, and the names in `plugins_to_kill`
unfoldable pub mark :
    Utils → List Str → List (Str × PluginState) → List (Str × PluginState) × List Str
mark u seen [] = ([], [])
mark u seen ((name, s) ∷ rest) =
    let (rest', kills) = mark u seen rest in
    if not (u.contains seen name) && (ltb 0 s.pid || s.will_autostart)
    then ((name, record s { will_autostart = false }) ∷ rest', name ∷ kills)
    else ((name, s) ∷ rest', kills)

-- a call of `kill`, whose result is only reported
pub data Signal : Type 0 where
  sigint sigkill : ℕ → Signal

unfoldable pub stop_plugin : PluginState → Bool → Run Signal
stop_plugin s hard =
    if s.pid == 0 then dies assert_failed else done (if hard then sigkill s.pid else sigint s.pid)

unfoldable pub stop_running : Bool → Option PluginState → Run (List Signal)
unfolding stop_plugin
stop_running hard none = done []
stop_running hard (some s) =
    if s.pid == 0 then done [] else stop_plugin s hard >>= λ sent. done (sent ∷ [])

-- a loop over `plugins`, whose pointers go to the states of the map with the same names
unfoldable pub stop_all : Bool → List Str → List (Str × PluginState) → Run (List Signal)
unfolding stop_running
stop_all hard [] states = done []
stop_all hard (name ∷ names) states = stop_running hard (Map.find name states) >>= λ sent.
    stop_all hard names states >>= λ sent'. done (sent ++ sent')

-- what happens while the monitor sleeps and runs once: whether SIGCHLD comes, and the clock and the
-- children that `runOnce` then sees
pub record Pass : Type 0 where
  pub signalled : Bool
  pub now : ℕ
  pub children : List (ℕ × ChildStatus)

-- `PluginMonitor::sigchild`
unfoldable pub sigchild : Monitor → Monitor
sigchild m = record m { should_run = true }

-- `sleep(2)` and `runOnce()`
unfoldable pub rest_and_run : Host → Pass → Monitor → Run Monitor
unfolding sigchild
rest_and_run h pass m = run_once h pass.now pass.children (if pass.signalled then sigchild m else m)

unfoldable pub kill_round : Host → Bool → Pass → List Str → Monitor → Run (Monitor × List Signal)
kill_round h hard pass plugins m = stop_all hard plugins m.states >>= λ sent.
    if is_empty sent then done (m, []) else rest_and_run h pass m >>= λ m'. done (m', sent)

-- at the end of it a plugin that still runs is only reported
unfoldable pub kill_plugins : Host → Pass → Pass → List Str → Monitor → Run (Monitor × List Signal)
kill_plugins h soft hard plugins m = kill_round h false soft plugins m >>= λ (m', sent).
    kill_round h true hard plugins m' >>= λ (m'', sent'). done (m'', sent ++ sent')

-- how `configReloaded` ends: with the signals that it sent, or with an exception
pub data Reloaded : Type 0 where
  reloaded : Monitor → List Signal → Reloaded
  refused : Monitor → Str → Reloaded

-- what follows the loop over the plugins; `last` is for the `runOnce` at the end
unfoldable pub clean_up :
    Utils → Host → Pass → Pass → Pass → Monitor → Registry × Option Str → Run Reloaded
unfolding mark sigchild
clean_up u h soft hard last m (r, some why) = done (refused (record m { states = r.states }) why)
clean_up u h soft hard last m (r, none) =
    let (states, kills) = mark u r.seen r.states in
    kill_plugins h soft hard kills (record m { states = states }) >>= λ (m', sent).
    run_once h last.now last.children (record m' { should_run = true }) >>= λ m''.
    done (reloaded m'' sent)

unfoldable pub config_reloaded :
    Utils
    → Host
    → List NetworkConfig
    → List PluginConfig
    → Pass
    → Pass
    → Pass
    → Monitor
    → Run Reloaded
config_reloaded u h networks plugins soft hard last m =
    register_all u networks plugins (record { seen = []; states = m.states }) >>= λ q.
    clean_up u h soft hard last m q

-- the constructor
unfoldable pub new_plugin_monitor : Monitor
new_plugin_monitor = record { states = []; should_run = true; forks = 0 }

abbrev keys {ℓ} : {V : Type ℓ} → List (Str × V) → List Str
keys [] = []
keys ((name, v) ∷ rest) = name ∷ keys rest

-- the destructor; the plugins are still to be started, so that `runOnce` may start them again
unfoldable pub destroy : Host → Pass → Pass → Monitor → Run (Monitor × List Signal)
destroy h soft hard m = kill_plugins h soft hard (keys m.states) m
