-- ===== src/Monitor/Reload/Ending.antt =====
-- A reload of the plugins ends, whatever the configuration says.
use dazeus_core.Base.{true, not, ◌||◌, List, [], ◌∷◌, Option, none, some, is_empty}
use dazeus_core.Text.{Str}
use dazeus_core.Map
use dazeus_core.External.{Utils}
use dazeus_core.Run.{EndsWith-Yields, Yields-if, Stops, Stops-bind, Stops-Yields, Ends}
use dazeus_core.Settings.{PluginConfig, NetworkConfig}
use dazeus_core.Monitor.{PluginState, Host, Monitor}
use dazeus_core.Monitor.Reload.{
  new_plugin_state, Registry, Reply, next, enter, register, state_name, register_networks,
  register_plugin, register_all, mark, Pass, clean_up, config_reloaded,
}
use dazeus_core.Monitor.Reload.Kept.{Keeps, run_once-Keeps}
use dazeus_core.Monitor.Reload.Signals.{AfterKill, kill_plugins-Yields}

new_plugin_state-Stops :
    (config : PluginConfig) (network : Str) → Stops (new_plugin_state config network)
unfolding new_plugin_state
new_plugin_state-Stops config network =
    Yields-if _ (not (config.per_network || is_empty network)) _ _ (λ _. tt)
      λ _.
        Yields-if _ (not (not config.per_network || not (is_empty network))) _ _ (λ _. tt) (λ _. tt)

next-Stops :
    (q : Registry × Option Str) (k : Registry → Reply)
    → ((r : Registry) → Stops (k r))
    → Stops (next q k)
next-Stops (r, none) k h = h r
next-Stops (r, some why) k h = tt

module _ (u : Utils) where
  enter-Stops :
      (config : PluginConfig) (name network : Str) (r : Registry) (o : Option PluginState)
      → Stops (enter config name network r o)
  unfolding enter
  enter-Stops config name network r none =
      Stops-bind (new_plugin_state config network) _ (new_plugin_state-Stops config network)
        (λ s. tt)
  enter-Stops config name network r (some s) = tt

  register-Stops :
      (config : PluginConfig) (name network : Str) (r : Registry)
      → Stops (register u config name network r)
  unfolding register
  register-Stops config name network r =
      Yields-if _ (u.contains r.seen name) _ _ (λ _. tt)
        (λ _. enter-Stops config name network _ (Map.find name r.states))

  register_networks-Stops :
      (config : PluginConfig) (ns : List NetworkConfig) (r : Registry)
      → Stops (register_networks u config ns r)
  unfolding register_networks
  register_networks-Stops config [] r = tt
  register_networks-Stops config (n ∷ ns) r =
      Stops-bind _ _ (register-Stops config (state_name config n) n.name r)
        λ q. next-Stops q (register_networks u config ns) (register_networks-Stops config ns)

  module _ (networks : List NetworkConfig) where
    register_plugin-Stops :
        (p : PluginConfig) (r : Registry) → Stops (register_plugin u networks p r)
    unfolding register_plugin
    register_plugin-Stops p r =
        Yields-if _ (is_empty p.name) _ _ (λ _. tt)
          λ _.
            Yields-if _ p.per_network _ _ (λ _. register_networks-Stops p networks r)
              (λ _. register-Stops p p.name [] r)

    register_all-Stops :
        (plugins : List PluginConfig) (r : Registry) → Stops (register_all u networks plugins r)
    unfolding register_all
    register_all-Stops [] r = tt
    register_all-Stops (p ∷ ps) r =
        Stops-bind _ _ (register_plugin-Stops p r)
          λ q. next-Stops q (register_all u networks ps) (register_all-Stops ps)

  module _ (h : Host) (socket_ends : Ends h.socket) (soft hard last : Pass) (m : Monitor) where
    clean_up-Stops : (q : Registry × Option Str) → Stops (clean_up u h soft hard last m q)
    unfolding clean_up
    clean_up-Stops (r, some why) = tt
    clean_up-Stops (r, none) =
        let marked = (mark u r.seen r.states).0 in
        let kills = (mark u r.seen r.states).1 in
        Stops-bind _ _
          (Stops-Yields
            (AfterKill h socket_ends soft hard kills
              (record { states = marked; should_run = m.should_run; forks = m.forks }))
            _
            (EndsWith-Yields (
              kill_plugins-Yields h socket_ends soft hard kills
                (record { states = marked; should_run = m.should_run; forks = m.forks }))))
          λ q.
            Stops-bind _ _
              (Stops-Yields (λ m'. Keeps q.0.states m'.states) _
                (EndsWith-Yields (
                  run_once-Keeps h socket_ends last.now last.children
                    (record { states = q.0.states; should_run = true; forks = q.0.forks }))))
              (λ m'. tt)

    pub config_reloaded-Stops :
        (networks : List NetworkConfig) (plugins : List PluginConfig)
        → Stops (config_reloaded u h networks plugins soft hard last m)
    unfolding config_reloaded
    config_reloaded-Stops networks plugins =
        Stops-bind _ _ (register_all-Stops networks plugins _) clean_up-Stops
