-- ===== src/Dazeus/Connected.antt =====
-- What `DaZeus::connectDatabase` leaves of the bot.
use dazeus_core.Base.{◌≡◌, refl, ◌∙◌, Bool, true, false, not, Option, none, some}
use dazeus_core.Text.{Str}
use dazeus_core.Run.{Yields, Yields-bind, Yields-if}
use dazeus_core.Settings.{DatabaseConfig}
use dazeus_core.Config.Reading.{Settings}
use dazeus_core.Monitor.{Monitor}
use dazeus_core.Requests.{Outcome, returns, crashes}
use dazeus_core.Dazeus.{
  DaZeus, Pointer, null, dangling, object, Link, current, stale, Backend, create_db,
  delete_database, connect_new, connect_database, open_backend,
}
use dazeus_core.Dazeus.Load.{World}

-- `plugins_` is not 0
abbrev pub present : Option Link → Bool
present none = false
present (some link) = true

stale_present :
    (o : Option Link) → present (elim o [ none ↦ none | some p ↦ some stale ]) ≡ present o
stale_present none = refl
stale_present (some p) = refl

stale_link : (o : Option Link) → ¬ (elim o [ none ↦ none | some p ↦ some stale ]) ≡ some current
stale_link none e = cc
stale_link (some p) e = cc

stale_up :
    (o : Option Link)
    → (link : Link) × (o ≡ some link)
    → (link : Link) × (elim o [ none ↦ none | some p ↦ some stale ] ≡ some link)
stale_up none u = absurd cc
stale_up (some p) u = (stale, refl)

module _ {D : Type 0} where
  -- `plugins_` and `plugin_monitor_` are there, and `config_` was read once.
  pub record IsUp (s : DaZeus D) : Type 0 where
    pub plugins_up : (link : Link) × (s.plugins ≡ some link)
    pub monitor_up : (m : Str × Monitor) × (s.plugin_monitor ≡ some m)
    pub settings_up : (set : Settings) × (s.settings ≡ some set)

  -- Where the pointer of `plugins_` is `database_`, there is an object.
  abbrev pub IsLinked : DaZeus D → Type 0
  IsLinked s = s.plugins ≡ some current → (d : D) × (s.database ≡ object d)

  -- a part of `loadConfig` before the networks: what it may change
  pub record Prepared (s t : DaZeus D) : Type 0 where
    pub networks_kept : t.networks ≡ s.networks
    pub next_kept : t.next_network ≡ s.next_network
    pub events_kept : t.events ≡ s.events
    pub up_kept : IsUp s → IsUp t
    pub linked_kept : IsLinked s → IsLinked t

  -- the configuration stays, and so does whether `plugins_` is there
  abbrev pub Kept : DaZeus D → DaZeus D → Type 0
  Kept s t = (t.settings ≡ s.settings) × (present t.plugins ≡ present s.plugins)

  -- `database_` is the backend that the settings choose, and `open` has returned on it.
  pub record IsOpen (w : World D) (dbc : DatabaseConfig) (t : DaZeus D) : Type 0 where
    pub backend : Backend
    pub opened : D
    pub chosen : create_db w.built dbc ≡ returns backend
    pub has_opened : w.opens backend dbc ≡ returns opened
    pub used : t.database ≡ object opened

  -- after `connectDatabase`; the settings are there
  abbrev pub Connects : World D → DatabaseConfig → DaZeus D → DaZeus D × Bool → Type 0
  Connects w dbc s r = Prepared s r.0 × Kept s r.0 × (r.1 ≡ true → IsOpen w dbc r.0)

  Prepared-self : (s : DaZeus D) → Prepared s s
  Prepared-self s = record {
    networks_kept = refl;
    next_kept = refl;
    events_kept = refl;
    up_kept = λ u. u;
    linked_kept = λ l. l;
  }

  Prepared-object :
      (s t : DaZeus D) (d : D) → Prepared s t → Prepared s (record t { database = object d })
  Prepared-object s t d p = record {
    networks_kept = p.networks_kept;
    next_kept = p.next_kept;
    events_kept = p.events_kept;
    up_kept = λ u.
        let v = p.up_kept u in
        record {
          plugins_up = v.plugins_up;
          monitor_up = v.monitor_up;
          settings_up = v.settings_up;
        };
    linked_kept = λ l c. (d, refl);
  }

  pub Prepared-trans : (s t v : DaZeus D) → Prepared s t → Prepared t v → Prepared s v
  Prepared-trans s t v p q = record {
    networks_kept = q.networks_kept ∙ p.networks_kept;
    next_kept = q.next_kept ∙ p.next_kept;
    events_kept = q.events_kept ∙ p.events_kept;
    up_kept = λ u. q.up_kept (p.up_kept u);
    linked_kept = λ l. q.linked_kept (p.linked_kept l);
  }

  -- `setDatabase` with an object
  pub Prepared-plugins :
      (t : DaZeus D)
      → (d : D) × (t.database ≡ object d)
      → Prepared t (record t { plugins = some current })
  Prepared-plugins t there = record {
    networks_kept = refl;
    next_kept = refl;
    events_kept = refl;
    up_kept = λ u. record {
      plugins_up = (current, refl);
      monitor_up = u.monitor_up;
      settings_up = u.settings_up;
    };
    linked_kept = λ l c. there;
  }

  -- the configuration changes
  pub Prepared-settings :
      (t : DaZeus D) (set : Settings) → Prepared t (record t { settings = some set })
  Prepared-settings t set = record {
    networks_kept = refl;
    next_kept = refl;
    events_kept = refl;
    up_kept = λ u. record {
      plugins_up = u.plugins_up;
      monitor_up = u.monitor_up;
      settings_up = (set, refl);
    };
    linked_kept = λ l. l;
  }

  delete-Prepared :
      (s : DaZeus D) (p : Pointer D) → Yields (λ t. Prepared s t × Kept s t) (delete_database s p)
  unfolding delete_database
  delete-Prepared s null = (Prepared-self s, (refl, refl))
  delete-Prepared s dangling = tt
  delete-Prepared s (object d) = (
    record {
      networks_kept = refl;
      next_kept = refl;
      events_kept = refl;
      up_kept = λ u. record {
        plugins_up = stale_up s.plugins u.plugins_up;
        monitor_up = u.monitor_up;
        settings_up = u.settings_up;
      };
      linked_kept = λ l c. absurd (stale_link s.plugins c);
    },
    (refl, stale_present s.plugins),
  )

  open-Connects :
      (w : World D) (dbc : DatabaseConfig) (backend : Backend) (s t : DaZeus D) (fresh : D)
      (o : Outcome D)
      → create_db w.built dbc ≡ returns backend
      → w.opens backend dbc ≡ o
      → Prepared s t
      → Kept s t
      → Yields (Connects w dbc s) (open_backend t fresh o)
  unfolding open_backend
  open-Connects w dbc backend s t fresh (returns d) e f p k = (
    Prepared-object s t d p,
    k,
    λ h. record { backend = backend; opened = d; chosen = e; has_opened = f; used = refl },
  )
  open-Connects w dbc backend s t fresh (Outcome.throws why) e f p k =
      (Prepared-object s t fresh p, k, λ h. absurd cc)
  open-Connects w dbc backend s t fresh (crashes why) e f p k = tt

  module _ (w : World D) where
    new-Connects :
        (dbc : DatabaseConfig) (s t : DaZeus D) (o : Outcome Backend)
        → create_db w.built dbc ≡ o
        → Prepared s t
        → Kept s t
        → Yields (Connects w dbc s) (connect_new w.fresh w.opens dbc t o)
    unfolding connect_new
    new-Connects dbc s t (returns backend) e p k =
        open-Connects w dbc backend s t (w.fresh backend dbc) (w.opens backend dbc) e refl p k
    new-Connects dbc s t (Outcome.throws why) e p k = (p, k, λ h. absurd cc)
    new-Connects dbc s t (crashes why) e p k = tt

    pub connect-Connects :
        (dbc : DatabaseConfig) (s : DaZeus D)
        → Yields (Connects w dbc s) (connect_database w.built w.fresh w.opens dbc s)
    unfolding connect_database
    connect-Connects dbc s =
        Yields-if (Connects w dbc s) (not s.is_read) _ _ (λ _. tt)
          λ _.
            Yields-bind (λ t. Prepared s t × Kept s t) (Connects w dbc s) _ _
              (delete-Prepared s s.database)
              (λ t p. new-Connects dbc s t (create_db w.built dbc) refl p.0 p.1)
