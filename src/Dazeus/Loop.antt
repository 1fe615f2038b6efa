-- ===== src/Dazeus/Loop.antt =====
-- `DaZeus::run` and what the signal handlers and the plugins call (src/dazeus.cpp, src/dazeus.h).
use dazeus_core.Base.{
  ℕ, Bool, true, false, not, ◌&&◌, List, [], ◌∷◌, ◌++◌, Option, none, some, if◌then◌else◌,
}
use dazeus_core.Text.{Str}
use dazeus_core.Run.{Run, done, dies, undefined_behaviour, ◌>>=◌}
use dazeus_core.Config.Reading.{Settings}
use dazeus_core.Monitor.{Monitor, ChildStatus, run_once}
use dazeus_core.Monitor.Reload.{Pass, sigchild, destroy}
use dazeus_core.Dazeus.{
  DaZeus, NetworkEvent, disconnected, delete_database, Pointer, object, Link, current,
}
use dazeus_core.Dazeus.Load.{World, Attempt, host_of, load_config}

-- What the bot is called for while `plugins_->run` waits and answers plugins: `reloadConfig`, `stop`,
-- `sigchild`, and the requests that change the contents of the database.
pub data Call (D : Type 0) : Type 0 where
  reload_config stop child : Call D
  changes : (D → D) → Call D

-- one round of the main loop: what a reload meets, the clock and the children for `runOnce`, and the
-- calls of `plugins_->run`
pub record Round (D : Type 0) : Type 0 where
  pub attempt : Attempt
  pub now : ℕ
  pub children : List (ℕ × ChildStatus)
  pub calls : List (Call D)

unfoldable pub disconnect_all : List (Str × ℕ) → List NetworkEvent
disconnect_all [] = []
disconnect_all ((name, net) ∷ rest) = disconnected net ∷ disconnect_all rest

module _ {D : Type 0} where
  -- `DaZeus::sigchild`
  unfoldable pub on_sigchild : DaZeus D → Option (Str × Monitor) → Run (DaZeus D)
  unfolding sigchild
  on_sigchild s none = dies undefined_behaviour
  on_sigchild s (some (directory, m)) =
      done (record s { plugin_monitor = some (directory, sigchild m) })

  -- a request that writes to the database of `plugins_`
  unfoldable pub change : (D → D) → DaZeus D → Option Link → Pointer D → Run (DaZeus D)
  change f s (some current) (object d) = done (record s { database = object (f d) })
  change f s _ _ = dies undefined_behaviour

  unfoldable pub take_call : Call D → DaZeus D → Run (DaZeus D)
  unfolding on_sigchild change
  take_call reload_config s = done (record s { config_reload_pending = true })
  take_call stop s = done (record s { running = false })
  take_call child s = on_sigchild s s.plugin_monitor
  take_call (changes f) s = change f s s.plugins s.database

  unfoldable pub take_calls : List (Call D) → DaZeus D → Run (DaZeus D)
  unfolding take_call
  take_calls [] s = done s
  take_calls (c ∷ cs) s = take_call c s >>= λ t. take_calls cs t

  -- `plugins_->run(…)`
  unfoldable pub run_plugins : List (Call D) → DaZeus D → Option Link → Run (DaZeus D)
  unfolding take_calls
  run_plugins calls s none = dies undefined_behaviour
  run_plugins calls s (some link) = take_calls calls s

  unfoldable pub after_load : Bool → DaZeus D × Bool → Run (DaZeus D × Bool × Bool)
  after_load initial_config (s, ok) =
      if not ok && initial_config then done (s, initial_config, true) else done (s, false, false)

  module _ (w : World D) where
    -- `plugin_monitor_->runOnce()`
    unfoldable pub watch :
        Round D → DaZeus D → Option (Str × Monitor) → Option Settings → Run (DaZeus D)
    unfolding host_of
    watch r s none set = dies undefined_behaviour
    watch r s (some m) none = dies undefined_behaviour
    watch r s (some (directory, m)) (some set) =
        run_once (host_of w.host directory set) r.now r.children m >>= λ m'.
        done (record s { plugin_monitor = some (directory, m') })

    -- the reload at the head of a round; the last answer is whether the loop is left
    unfoldable pub reload_pending : Round D → Bool → DaZeus D → Run (DaZeus D × Bool × Bool)
    unfolding after_load
    reload_pending r initial_config s =
        if s.config_reload_pending
        then (load_config w r.attempt (record s { config_reload_pending = false })
            >>= after_load initial_config)
        else done (s, initial_config, false)

    unfoldable pub rest_of_round : Round D → DaZeus D → Run (DaZeus D)
    unfolding watch run_plugins
    rest_of_round r s =
        watch r s s.plugin_monitor s.settings >>= λ s'. run_plugins r.calls s' s'.plugins

    -- the rounds of the loop, for as long as the list goes on
    unfoldable pub main_loop : List (Round D) → Bool → DaZeus D → Run (DaZeus D)
    unfolding reload_pending rest_of_round
    main_loop [] initial_config s = done s
    main_loop (r ∷ rs) initial_config s =
        if not s.running
        then done s
        else reload_pending r initial_config s >>= λ (s', initial', left).
            if left then done s' else rest_of_round r s' >>= λ s''. main_loop rs initial' s''

    unfoldable pub run : List (Round D) → DaZeus D → Run (DaZeus D)
    run rounds s = main_loop rounds true (record s { running = true })

    -- `delete plugin_monitor_`, which stops the plugins
    unfoldable pub delete_monitor :
        Pass → Pass → DaZeus D → Option (Str × Monitor) → Option Settings → Run (DaZeus D)
    unfolding host_of destroy
    delete_monitor soft hard s none set = done s
    delete_monitor soft hard s (some m) none = dies undefined_behaviour
    delete_monitor soft hard s (some (directory, m)) (some set) =
        destroy (host_of w.host directory set) soft hard m >>= λ (m', sent).
        done (record s { plugin_monitor = some (directory, m') })

    -- the destructor: every network is left, then the plugins are stopped
    unfoldable pub close : Pass → Pass → DaZeus D → Run (DaZeus D)
    unfolding delete_monitor disconnect_all
    close soft hard s =
        let s' = record s { events = s.events ++ disconnect_all s.networks; networks = [] } in
        delete_monitor soft hard s' s'.plugin_monitor s'.settings >>= λ t.
        delete_database t t.database
