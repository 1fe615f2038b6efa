-- ===== src/Dazeus/Running.antt =====
-- What the main loop keeps of the bot.
use dazeus_core.Base.{
  ◌≡◌, refl, Bool, true, false, not, List, [], ◌∷◌, Option, none, some, if◌then◌else◌, All, arith,
}
use dazeus_core.Text.{Str}
use dazeus_core.Run.{
  EndsWith-Yields, Run, done, Yields, Yields-bind, Yields-mono, Yields-if, Stops-Yields, ◌>>=◌,
}
use dazeus_core.Config.Reading.{Settings, ReadResult, read}
use dazeus_core.Monitor.{Monitor}
use dazeus_core.Monitor.Reload.Kept.{Keeps, run_once-Keeps}
use dazeus_core.Dazeus.{DaZeus, new_dazeus, Link, current, Pointer, object}
use dazeus_core.Dazeus.Load.{World, Attempt, host_of, load_config}
use dazeus_core.Dazeus.Loop.{
  Call, reload_config, stop, child, changes, Round, on_sigchild, change, take_call, take_calls,
  run_plugins, after_load, watch, reload_pending, rest_of_round, main_loop, run,
}
use dazeus_core.Dazeus.Connected.{IsUp}
use dazeus_core.Dazeus.Loaded.{Loads, loaded, not_loaded, load_config_lem, host_of-Ends}

module _ {D : Type 0} where
  on_sigchild-IsUp :
      (s : DaZeus D) (o : Option (Str × Monitor)) → IsUp s → Yields IsUp (on_sigchild s o)
  unfolding on_sigchild
  on_sigchild-IsUp s none u = tt
  on_sigchild-IsUp s (some (directory, m)) u = record {
    plugins_up = u.plugins_up;
    monitor_up = (_, refl);
    settings_up = u.settings_up;
  }

  change-IsUp :
      (f : D → D) (s : DaZeus D) (o : Option Link) (p : Pointer D)
      → IsUp s
      → Yields IsUp (change f s o p)
  unfolding change
  change-IsUp f s (some current) (object d) u = record {
    plugins_up = u.plugins_up;
    monitor_up = u.monitor_up;
    settings_up = u.settings_up;
  }
  change-IsUp f s _ _ u = tt

  take_call-IsUp : (c : Call D) (s : DaZeus D) → IsUp s → Yields IsUp (take_call c s)
  unfolding take_call
  take_call-IsUp reload_config s u = record {
    plugins_up = u.plugins_up;
    monitor_up = u.monitor_up;
    settings_up = u.settings_up;
  }
  take_call-IsUp stop s u = record {
    plugins_up = u.plugins_up;
    monitor_up = u.monitor_up;
    settings_up = u.settings_up;
  }
  take_call-IsUp child s u = on_sigchild-IsUp s s.plugin_monitor u
  take_call-IsUp (changes f) s u = change-IsUp f s s.plugins s.database u

  take_calls-IsUp : (cs : List (Call D)) (s : DaZeus D) → IsUp s → Yields IsUp (take_calls cs s)
  unfolding take_calls
  take_calls-IsUp [] s u = u
  take_calls-IsUp (c ∷ cs) s u =
      Yields-bind IsUp IsUp _ _ (take_call-IsUp c s u) (λ t v. take_calls-IsUp cs t v)

  run_plugins-IsUp :
      (cs : List (Call D)) (s : DaZeus D) (o : Option Link)
      → IsUp s
      → Yields IsUp (run_plugins cs s o)
  unfolding run_plugins
  run_plugins-IsUp cs s none u = tt
  run_plugins-IsUp cs s (some link) u = take_calls-IsUp cs s u

  module _ (w : World D) where
    watch-IsUp :
        (r : Round D) (s : DaZeus D) (m : Option (Str × Monitor)) (set : Option Settings)
        → IsUp s
        → Yields IsUp (watch w r s m set)
    unfolding watch
    watch-IsUp r s none set u = tt
    watch-IsUp r s (some m) none u = tt
    watch-IsUp r s (some (directory, m)) (some set) u =
        Yields-bind (λ n. Unit {0}) IsUp _ _
          (Stops-Yields (λ n. Keeps m.states n.states) _
            (EndsWith-Yields (
              run_once-Keeps (host_of w.host directory set) (host_of-Ends w.host directory set)
                r.now r.children m)))
          λ n _. record {
            plugins_up = u.plugins_up;
            monitor_up = ((directory, n), refl);
            settings_up = u.settings_up;
          }

    rest_of_round-IsUp : (r : Round D) (s : DaZeus D) → IsUp s → Yields IsUp (rest_of_round w r s)
    unfolding rest_of_round
    rest_of_round-IsUp r s u =
        Yields-bind IsUp IsUp _ _ (watch-IsUp r s s.plugin_monitor s.settings u)
          (λ t v. run_plugins-IsUp r.calls t t.plugins v)

    -- the file of a round's reload is read or refused
    abbrev pub ReadsIn : Round D → Type 0
    ReadsIn r =
        (result : ReadResult) × (read w.utils w.defaults r.attempt.created r.attempt.loop_ok
            r.attempt.calls
          ≡ done result)

    -- how the head of a round ends
    data Goes (s : DaZeus D) (initial : Bool) : DaZeus D × Bool × Bool → Type 0 where
      goes_on : {t : DaZeus D} → IsUp t → Goes s initial (t, false, false)
      leaves :
          {t : DaZeus D}
          → initial ≡ true
          → t.networks ≡ s.networks
          → t.events ≡ s.events
          → Goes s initial (t, true, true)

    after_load-Goes :
        (a : Attempt) (result : ReadResult) (initial : Bool) (s : DaZeus D) (q : DaZeus D × Bool)
        → (initial ≡ false → IsUp s)
        → Loads w a (record s { config_reload_pending = false }) result q
        → Yields (Goes s initial) (after_load initial q)
    unfolding after_load
    after_load-Goes a result true s _ up
          (loaded file sockets before same base counted opened has u linked plugins networks) =
        goes_on u
    after_load-Goes a result false s _ up
          (loaded file sockets before same base counted opened has u linked plugins networks) =
        goes_on u
    after_load-Goes a result true s _ up (not_loaded networks events u linked) =
        leaves refl networks events
    after_load-Goes a result false s _ up (not_loaded networks events u linked) = goes_on (
        u (record {
          plugins_up = (up refl).plugins_up;
          monitor_up = (up refl).monitor_up;
          settings_up = (up refl).settings_up;
        }))

    idle-Goes :
        (initial : Bool) (s : DaZeus D)
        → s.config_reload_pending ≡ false
        → (initial ≡ true → s.config_reload_pending ≡ true)
        → (initial ≡ false → IsUp s)
        → Goes s initial (s, initial, false)
    idle-Goes true s idle pending up = absurd (ground (arith, pending refl))
    idle-Goes false s idle pending up = goes_on (up refl)

    reload_pending-Goes :
        (r : Round D) (initial : Bool) (s : DaZeus D)
        → ReadsIn r
        → (initial ≡ true → s.config_reload_pending ≡ true)
        → (initial ≡ false → IsUp s)
        → Yields (Goes s initial) (reload_pending w r initial s)
    unfolding reload_pending
    reload_pending-Goes r initial s reads pending up =
        Yields-if (Goes s initial) s.config_reload_pending _ _
          (λ _.
            Yields-bind (Loads w r.attempt (record s { config_reload_pending = false }) reads.0)
              (Goes s initial) _ _
              (load_config_lem w r.attempt (record s { config_reload_pending = false }) reads.0
                reads.1)
              (λ q l. after_load-Goes r.attempt reads.0 initial s q up l))
          (λ idle. idle-Goes initial s idle pending up)

    -- How the loop ends: with `plugins_` and `plugin_monitor_` there, or before a first
    -- configuration was loaded, with no network touched.
    pub data Runs (s : DaZeus D) (initial : Bool) : DaZeus D → Type 0 where
      up : {t : DaZeus D} → IsUp t → Runs s initial t
      never_loaded :
          {t : DaZeus D}
          → initial ≡ true
          → t.networks ≡ s.networks
          → t.events ≡ s.events
          → Runs s initial t

    started-Runs : (initial : Bool) (s : DaZeus D) → (initial ≡ false → IsUp s) → Runs s initial s
    started-Runs true s u = never_loaded refl refl refl
    started-Runs false s u = up (u refl)

    later-Runs : {s t v : DaZeus D} (initial : Bool) → Runs t false v → Runs s initial v
    later-Runs initial (up u) = up u
    later-Runs initial (never_loaded first networks events) = absurd cc

    -- what a round does behind the reload at its head
    after_head-Runs :
        (r : Round D) (rest : Bool → DaZeus D → Run (DaZeus D)) (s : DaZeus D) (initial : Bool)
        (q : DaZeus D × Bool × Bool)
        → Goes s initial q
        → ((t : DaZeus D) → IsUp t → Yields (Runs t false) (rest false t))
        → Yields
            (Runs s initial)
            (if q.2 then done q.0 else rest_of_round w r q.0 >>= λ t. rest q.1 t)
    after_head-Runs r rest s initial _ (goes_on {t = t} u) k =
        Yields-bind IsUp (Runs s initial) _ _ (rest_of_round-IsUp r t u) (λ t' u'.
          Yields-mono (Runs t' false) (Runs s initial) _ (k t' u') (λ v e. later-Runs initial e))
    after_head-Runs r rest s initial _ (leaves first networks events) k =
        never_loaded first networks events

    main_loop-Runs :
        (rounds : List (Round D)) (initial : Bool) (s : DaZeus D)
        → All ReadsIn rounds
        → (initial ≡ true → s.config_reload_pending ≡ true)
        → (initial ≡ false → IsUp s)
        → Yields (Runs s initial) (main_loop w rounds initial s)
    unfolding main_loop
    main_loop-Runs [] initial s reads pending u = started-Runs initial s u
    main_loop-Runs (r ∷ rs) initial s reads pending u =
        Yields-if (Runs s initial) (not s.running) _ _ (λ _. started-Runs initial s u)
          λ _.
            Yields-bind (Goes s initial) (Runs s initial) _ _
              (reload_pending-Goes r initial s reads.0 pending u)
              (λ q g.
                after_head-Runs r (main_loop w rs) s initial q g
                  (λ t u'. main_loop-Runs rs false t reads.1 (λ e. absurd cc) (λ _. u')))

    -- the bot that `run` loads its first configuration into
    abbrev pub beginning : Str → DaZeus D
    beginning name = record (new_dazeus name) { running = true; config_reload_pending = false }

    -- How `run` goes, by what the first load has answered: it is left at once, with no network and
    -- no call on one; or it goes on with the parts of the bot, which are there where it returns.
    abbrev pub RunsAfter : DaZeus D → Bool → Run (DaZeus D) → Type 0
    RunsAfter t false m = (m ≡ done t) × (t.networks ≡ []) × (t.events ≡ [])
    RunsAfter t true m = IsUp t × Yields IsUp m

    Runs-IsUp : {s t : DaZeus D} → Runs s false t → IsUp t
    Runs-IsUp (up u) = u
    Runs-IsUp (never_loaded first networks events) = absurd cc

    Loads-kept :
        {a : Attempt} {result : ReadResult} (name : Str) (t : DaZeus D)
        → Loads w a (beginning name) result (t, false)
        → (t.networks ≡ []) × (t.events ≡ [])
    unfolding new_dazeus
    Loads-kept name t (not_loaded networks events u linked) = (networks, events)

    Loads-IsUp :
        {a : Attempt} {s : DaZeus D} {result : ReadResult} {t : DaZeus D}
        → Loads w a s result (t, true)
        → IsUp t
    Loads-IsUp (loaded file sockets before same base counted opened has u linked plugins networks) =
        u

    first_load :
        (r : Round D) (rs : List (Round D)) (name : Str) (t : DaZeus D) (ok : Bool)
        → load_config w r.attempt (beginning name) ≡ done (t, ok)
        → run w (r ∷ rs) (new_dazeus name)
          ≡ (if ok then (rest_of_round w r t >>= λ t'. main_loop w rs false t') else done t)
    unfolding run main_loop reload_pending after_load new_dazeus
    first_load r rs name t true e = rw e refl
    first_load r rs name t false e = rw e refl

    -- `run` begins with a load of the configuration; let it return, and `config_->read` return in every
    -- round. If the load has failed, `run` ends at once with the bot as the load left it, without a
    -- network, and having called none. If it has not, the bot has its plugins, its monitor and its
    -- settings after it, and it has them after any number of rounds, with any reloads, failed or not, or
    -- the process has died in a later step.
    pub run-Runs :
        (r : Round D) (rs : List (Round D)) (name : Str) (t : DaZeus D) (ok : Bool)
        → All ReadsIn (r ∷ rs)
        → load_config w r.attempt (beginning name) ≡ done (t, ok)
        → RunsAfter t ok (run w (r ∷ rs) (new_dazeus name))
    run-Runs r rs name t false reads e =
        let kept =
          Loads-kept name t
            (rw e at (load_config_lem w r.attempt (beginning name) reads.0.0 reads.0.1)) in
        (first_load r rs name t false e, kept.0, kept.1)
    run-Runs r rs name t true reads e =
        let u =
          Loads-IsUp (rw e at (load_config_lem w r.attempt (beginning name) reads.0.0 reads.0.1)) in
        (
          u,
          rw (first_load r rs name t true e) (
              Yields-mono (Runs t false) IsUp _
                (after_head-Runs r (main_loop w rs) t false (t, false, false) (goes_on u)
                  (λ t' u'. main_loop-Runs rs false t' reads.1 (λ x. absurd cc) (λ _. u')))
                (λ v x. Runs-IsUp x)),
        )
