-- ===== src/Dazeus/Loaded.antt =====
-- What `DaZeus::loadConfig` leaves of the bot.
use dazeus_core.Base.{
  arith, ◌≡◌, refl, sym, ap, ◌∙◌, Bool, true, false, not, List, [], ◌∷◌, Option, none, some, ◌==◌,
  is_empty,
}
use dazeus_core.Text.{Str, lit, is}
use dazeus_core.Text.Decimal.{int_max}
use dazeus_core.Map
use dazeus_core.Int.{ℤ, pos, negsuc}
use dazeus_core.Run.{
  Run, assert_failed, uncaught_exception, undefined_behaviour, done, dies, out_of_fuel, Yields,
  Yields-bind, Yields-mono, Yields-if, Stops, Stops-Ends, Stops-done, Ends, ◌>>=◌,
}
use dazeus_core.Settings.{DatabaseConfig, SocketConfig, get_plugin_socket, to_string}
use dazeus_core.Config.Reading.{Settings, ReadResult, is_read, throws, read}
use dazeus_core.Monitor.{Monitor, Host}
use dazeus_core.Monitor.Reload.{Reloaded, reloaded, refused}
use dazeus_core.Monitor.Reload.Ending.{config_reloaded-Stops}
use dazeus_core.Requests.{Outcome, returns, crashes}
use dazeus_core.Dazeus.{
  DaZeus, Pointer, null, dangling, object, Link, current, is_configured, update_networks, drop_gone,
}
use dazeus_core.Connections.Opening.{Servers, init}
use dazeus_core.Connections.Opened.{init-Stops}
use dazeus_core.Dazeus.Inits.{stream_int, skip_space, increment, next_init, init_text}
use dazeus_core.Dazeus.Load.{
  World, Attempt, host_of, caught_reload, monitor_of, set_plugins, follow_settings, reload_plugins,
  reload_networks, uncaught, count_init, apply_settings, with_result, load_config,
}
use dazeus_core.Dazeus.Networks.{Network, Network-cast, drop_gone-Network, drop_gone-Same}
use dazeus_core.Dazeus.Connected.{
  present, IsOpen, IsUp, IsLinked, Prepared, Prepared-trans, Prepared-plugins, Prepared-settings,
  Connects, connect-Connects,
}

to_string-Stops : (sc : SocketConfig) → Stops (to_string sc)
unfolding to_string
to_string-Stops sc =
    Yields-if _ (is sc.kind "unix") _ _ (λ _. tt)
      λ _. Yields-if _ (is sc.kind "tcp") _ _ (λ _. tt) (λ _. tt)

socket-Stops : (sockets : List SocketConfig) → Stops (get_plugin_socket sockets >>= to_string)
unfolding get_plugin_socket
socket-Stops [] = tt
socket-Stops (sc ∷ rest) = to_string-Stops sc

pub host_of-Ends :
    (h : Host) (directory : Str) (set : Settings) → Ends (host_of h directory set).socket
unfolding host_of
host_of-Ends h directory set = Stops-Ends _ (socket-Stops set.sockets)

caught-Stops : (left : Monitor) (m : Run Reloaded) → Stops m → Stops (caught_reload left m)
unfolding caught_reload
caught-Stops left (done (reloaded m sent)) h = tt
caught-Stops left (done (refused m why)) h = tt
caught-Stops left (dies assert_failed) h = tt
caught-Stops left (dies uncaught_exception) h = tt
caught-Stops left (dies undefined_behaviour) h = tt
caught-Stops left out_of_fuel h = elim h [ ]

increment-Stops : (n : ℤ) → Stops (increment n)
unfolding increment
increment-Stops (pos n) = Yields-if _ (n == int_max) _ _ (λ _. tt) (λ _. tt)
increment-Stops (negsuc n) = tt

next_init-Stops : (text : Str) → Stops (next_init text)
unfolding next_init
next_init-Stops text = from_number (stream_int (skip_space text))
  where
    from_number :
        (o : Option ℤ) → Stops (elim o [ none ↦ increment (pos 0) | some n ↦ increment n ])
    from_number none = increment-Stops (pos 0)
    from_number (some n) = increment-Stops n

-- what a run gives, and that it gives it
with_run {ℓ} :
    {A : Type 0} (P : A → Type ℓ) (m : Run A) → Yields P m → Yields (λ a. P a × (m ≡ done a)) m
with_run P (done a) h = (h, refl)
with_run P (dies d) h = tt
with_run P out_of_fuel h = elim h [ ]

-- The sockets of the configuration after a load: where `plugins_` was made, those that `init` left,
-- and otherwise those of the file.
abbrev pub SocketsAfter : Attempt → Bool → Settings → List SocketConfig → Type 0
SocketsAfter a false file sockets =
    (v : Servers) × (init a.openings file.sockets ≡ done v) × (sockets ≡ v.configs)
SocketsAfter a true file sockets = sockets ≡ file.sockets

module _ {D : Type 0} where
  -- How a load ends: with all of the new settings, where `init` may have changed the sockets, or with
  -- the networks as they were.
  -- The object that `database_` points to is the one that was opened, after the count of
  -- initialisations was written to it.
  pub data Loads (w : World D) (a : Attempt) (s : DaZeus D) (r : ReadResult)
      : DaZeus D × Bool → Type 0 where
    loaded :
        {t : DaZeus D} (file : Settings) (sockets : List SocketConfig) (before : DaZeus D)
        → r ≡ is_read file
        → IsOpen w file.database before
        → count_init w a before before.database ≡ done t
        → SocketsAfter a (present s.plugins) file sockets
        → t.settings ≡ some (record file { sockets = sockets })
        → IsUp t
        → IsLinked t
        → t.plugins ≡ some current
        → ((j : Str)
            → Network s.next_network t.next_network
                (is_configured j file.networks)
                (Map.find j s.networks)
                (Map.find j t.networks))
        → Loads w a s r (t, true)
    not_loaded :
        {t : DaZeus D}
        → t.networks ≡ s.networks
        → t.events ≡ s.events
        → (IsUp s → IsUp t)
        → (IsLinked s → IsLinked t)
        → Loads w a s r (t, false)

  Loads-read :
      (w : World D) (a : Attempt) (set : Settings) (s : DaZeus D) (r : ReadResult)
      (q : DaZeus D × Bool)
      → Loads w a (record s { settings = some set; is_read = true }) r q
      → Loads w a s r q
  Loads-read w a set s r _
        (loaded file sockets before same base counted opened has up linked plugins networks) =
      loaded file sockets before same base counted opened has up linked plugins networks
  Loads-read w a set s r _ (not_loaded networks events up linked) =
      not_loaded networks events
        (λ u. up (record {
          plugins_up = u.plugins_up;
          monitor_up = u.monitor_up;
          settings_up = (set, refl);
        }))
        linked

  module _ (w : World D) (a : Attempt) where
    IsOpen-same :
        (dbc : DatabaseConfig) (s t : DaZeus D)
        → t.database ≡ s.database
        → IsOpen w dbc s
        → IsOpen w dbc t
    IsOpen-same dbc s t e o = record {
      backend = o.backend;
      opened = o.opened;
      chosen = o.chosen;
      has_opened = o.has_opened;
      used = e ∙ o.used;
    }

    abbrev AfterReload : DaZeus D → DaZeus D × Bool → Type 0
    AfterReload s r =
        Prepared s r.0
        × IsUp r.0
        × (r.0.plugins ≡ s.plugins)
        × (r.0.settings ≡ s.settings)
        × (r.0.database ≡ s.database)

    reload_plugins-Prepared :
        (set : Settings) (s : DaZeus D)
        → s.settings ≡ some set
        → (link : Link) × (s.plugins ≡ some link)
        → Yields (AfterReload s) (reload_plugins w a set s)
    unfolding reload_plugins
    reload_plugins-Prepared set s has plugins =
        let m = monitor_of set s.plugin_monitor in
        Yields-bind (λ q. Unit {0}) _ _ _
          (caught-Stops a.left _ (
            config_reloaded-Stops w.utils (host_of w.host m.0 set) (host_of-Ends w.host m.0 set)
              a.soft a.hard a.last m.1 set.networks set.plugins))
          λ q _.
            let up : IsUp (record s { plugin_monitor = some (m.0, q.0) }) = record {
              plugins_up = plugins;
              monitor_up = ((m.0, q.0), refl);
              settings_up = (set, has);
            } in
            (
              record {
                networks_kept = refl;
                next_kept = refl;
                events_kept = refl;
                up_kept = λ u. up;
                linked_kept = λ l. l;
              },
              up,
              refl,
              refl,
              refl,
            )

    uncaught-Stops : {A : Type 0} (r : D × Outcome A) → Stops (uncaught w a r)
    unfolding uncaught
    uncaught-Stops (d, returns x) = tt
    uncaught-Stops (d, Outcome.throws why) = tt
    uncaught-Stops (d, crashes why) = tt

    -- the count changes nothing but the contents of the database
    count_init-Yields :
        (s : DaZeus D) (p : Pointer D)
        → Yields (λ t. (d : D) × (t ≡ record s { database = object d })) (count_init w a s p)
    unfolding count_init
    count_init-Yields s null = tt
    count_init-Yields s dangling = tt
    count_init-Yields s (object d) =
        Yields-bind (λ q. Unit {0}) _ _ _
          (uncaught-Stops (w.db.property d (lit "dazeus.numinits") [] [] []))
          λ q _.
            Yields-bind (λ n. Unit {0}) _ _ _ (next_init-Stops q.1)
              λ n _.
                Yields-bind (λ v. Unit {0}) _ _ _
                  (uncaught-Stops
                    (w.db.set_property q.0 (lit "dazeus.numinits") (init_text n) [] [] []))
                  (λ v _. (v.0, refl))

    finish-Loads :
        (file : Settings) (sockets : List SocketConfig) (s t : DaZeus D)
        → SocketsAfter a (present s.plugins) file sockets
        → Prepared s t
        → t.settings ≡ some (record file { sockets = sockets })
        → IsUp t
        → t.plugins ≡ some current
        → IsOpen w file.database t
        → Yields (Loads w a s (is_read file)) (
            count_init w a
              (reload_networks w a (record file { sockets = sockets }) t)
              (reload_networks w a (record file { sockets = sockets }) t).database
            >>= λ v. done (v, true))
    unfolding reload_networks
    finish-Loads file sockets s t from p has up linked base =
        let set : Settings = record file { sockets = sockets } in
        let n = drop_gone file.networks (update_networks w.auto_connect_enabled file.networks t) in
        let k = drop_gone-Same w.auto_connect_enabled file.networks t in
        Yields-bind
          (λ v.
            ((d : D) × (v ≡ record n { database = object d }))
            × (count_init w a n n.database ≡ done v))
          (Loads w a s (is_read file)) _ _
          (with_run (λ v. (d : D) × (v ≡ record n { database = object d }))
            (count_init w a n n.database) (count_init-Yields n n.database))
          λ v (c, ran).
            let plugins : v.plugins ≡ some current =
              ap (λ x. x.plugins) c.1 ∙ k.same_plugins ∙ linked in
            let settings : v.settings ≡ some set =
              ap (λ x. x.settings) c.1 ∙ k.same_settings ∙ has in
            loaded file sockets n refl (IsOpen-same file.database t n k.same_database base) ran from
              settings
              (record {
                plugins_up = (current, plugins);
                monitor_up = (
                  up.monitor_up.0,
                  ap (λ x. x.plugin_monitor) c.1 ∙ k.same_monitor ∙ up.monitor_up.1,
                );
                settings_up = (set, settings);
              })
              (λ l. (c.0, ap (λ x. x.database) c.1)) plugins
              λ j.
                Network-cast (sym p.next_kept) (ap (λ x. x.next_network) c.1)
                  (ap (Map.find j) (sym p.networks_kept)) (ap (λ x. Map.find j x.networks) c.1)
                  (drop_gone-Network w.auto_connect_enabled file.networks t j)

    follow-Loads :
        (file : Settings) (sockets : List SocketConfig) (s t : DaZeus D)
        → SocketsAfter a (present s.plugins) file sockets
        → Prepared s t
        → t.settings ≡ some (record file { sockets = sockets })
        → t.plugins ≡ some current
        → IsOpen w file.database t
        → Yields
            (Loads w a s (is_read file))
            (follow_settings w a (record file { sockets = sockets }) t)
    unfolding follow_settings
    follow-Loads file sockets s t from p has linked base =
        let set : Settings = record file { sockets = sockets } in
        Yields-bind (AfterReload t) (Loads w a s (is_read file)) _ _
          (reload_plugins-Prepared set t has (current, linked))
          λ q k.
            let p' = Prepared-trans s t q.0 p k.0 in
            Yields-if (Loads w a s (is_read file)) (not q.1) _ _
              (λ _. not_loaded p'.networks_kept p'.events_kept p'.up_kept p'.linked_kept)
              (λ _.
                finish-Loads file sockets s q.0 from p' (k.3 ∙ has) k.1 (k.2 ∙ linked)
                  (IsOpen-same file.database t q.0 k.4 base))

    -- the plugins are made, and the sockets of the configuration are changed
    abbrev Opened : Settings → DaZeus D → DaZeus D × Settings → Type 0
    Opened file t q =
        (v : Servers) × (init a.openings file.sockets ≡ done v)
        × (q ≡ (
          record t {
            plugins = some current;
            settings = some (record file { sockets = v.configs });
          },
          record file { sockets = v.configs },
        ))

    -- the plugins get the database, and are made if they were not there
    set_plugins-Loads :
        (file : Settings) (s t : DaZeus D) (o : Option Link)
        → present o ≡ present s.plugins
        → t.settings ≡ some file
        → Prepared s t
        → IsOpen w file.database t
        → Yields
            (Loads w a s (is_read file))
            (set_plugins w a file t o >>= λ (t', set'). follow_settings w a set' t')
    unfolding set_plugins
    set_plugins-Loads file s t (some link) o has p base =
        follow-Loads file file.sockets s (record t { plugins = some current }) (rw (← o) refl)
          (Prepared-trans s t _ p (Prepared-plugins t (base.opened, base.used))) has refl
          (IsOpen-same file.database t _ refl base)
    set_plugins-Loads file s t none o has p base =
        Yields-bind (Opened file t) (Loads w a s (is_read file)) _ _
          (Yields-bind (λ v. init a.openings file.sockets ≡ done v) (Opened file t) _ _
            (Stops-done _ (init-Stops a.openings file.sockets)) (λ v d. (v, d, refl)))
          (λ q e.
            let t' : DaZeus D = record t { plugins = some current } in
            let set : Settings = record file { sockets = e.0.configs } in
            let p' = Prepared-trans s t t' p (Prepared-plugins t (base.opened, base.used)) in
            rw e.2 (
              follow-Loads file e.0.configs s (record t' { settings = some set })
                (rw (← o) (e.0, e.1, refl)) (Prepared-trans s t' _ p' (Prepared-settings t' set))
                refl refl (IsOpen-same file.database t _ refl base)))

    apply_settings-Loads :
        (file : Settings) (s : DaZeus D)
        → s.settings ≡ some file
        → Yields (Loads w a s (is_read file)) (apply_settings w a file s)
    unfolding apply_settings
    apply_settings-Loads file s has =
        Yields-bind (Connects w file.database s) (Loads w a s (is_read file)) _ _
          (connect-Connects w file.database s)
          λ r c.
            Yields-if (Loads w a s (is_read file)) (not r.1) _ _
              (λ _. not_loaded c.0.networks_kept c.0.events_kept c.0.up_kept c.0.linked_kept)
              (λ connected.
                set_plugins-Loads file s r.0 r.0.plugins c.1.1 (c.1.0 ∙ has) c.0
                  (c.2 (ground arith)))

    with_result-Loads :
        (s : DaZeus D) (r : ReadResult) → Yields (Loads w a s r) (with_result w a s r)
    unfolding with_result
    with_result-Loads s (throws why) =
        not_loaded refl refl
          (λ u. record {
            plugins_up = u.plugins_up;
            monitor_up = u.monitor_up;
            settings_up = u.settings_up;
          })
          (λ l. l)
    with_result-Loads s (is_read file) =
        let s' : DaZeus D = record s { settings = some file; is_read = true } in
        Yields-mono (Loads w a s' (is_read file)) (Loads w a s (is_read file)) _
          (apply_settings-Loads file s' refl) (λ q l. Loads-read w a file s (is_read file) q l)

    -- `loadConfig`, if `config_->read` has returned, ends in one of two ways. It is true: the settings
    -- are the ones of the file, with the sockets as `init` left them if `plugins_` was made by this
    -- load, and as they stand in the file otherwise; the database is an object of the backend that the
    -- file names, on which `open` has returned and the initialisation was counted, and `plugins_` uses
    -- it; exactly the configured names have a network, the one that they had or a new one. Or it is
    -- false: then no network was touched, what was set up stays so, and the pointer of `plugins_`,
    -- where it is `database_`, still points to an object if it did before. Or the process dies.
    pub load_config_lem :
        (s : DaZeus D) (r : ReadResult)
        → read w.utils w.defaults a.created a.loop_ok a.calls ≡ done r
        → Yields (Loads w a s r) (load_config w a s)
    unfolding load_config
    load_config_lem s r e =
        Yields-if (Loads w a s r) (is_empty s.config_file_name) _ _ (λ _. tt)
          (λ _. rw e (with_result-Loads s r))
