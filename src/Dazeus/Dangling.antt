-- ===== src/Dazeus/Dangling.antt =====
-- A configuration that names a database which the bot does not know, loaded while a database is
-- open.
use dazeus_core.Base.{◌≡◌, refl, true, false, none, some, is_empty}
use dazeus_core.Text.{Str}
use dazeus_core.Run.{done, dies, undefined_behaviour}
use dazeus_core.Config.Reading.{Settings, is_read, read}
use dazeus_core.Requests.{Outcome}
use dazeus_core.Dazeus.{DaZeus, object, dangling, stale, create_db, connect_database}
use dazeus_core.Dazeus.Load.{World, Attempt, load_config, with_result, apply_settings}

module _ {D : Type 0} where
  -- the bot when the database was deleted and no other was made
  abbrev pub without_database : Settings → DaZeus D → DaZeus D
  without_database set s = record s {
    settings = some set;
    is_read = true;
    database = dangling;
    plugins = elim s.plugins [ none ↦ none | some p ↦ some stale ];
  }

module _ {D : Type 0} (w : World D) where
  -- the settings that `config_->read` finds
  abbrev pub Finds : Attempt → Settings → Type 0
  Finds a set = read w.utils w.defaults a.created a.loop_ok a.calls ≡ done (is_read set)

  fails_over :
      (a : Attempt) (set : Settings) (s : DaZeus D) (d : D) (why : Str)
      → is_empty s.config_file_name ≡ false
      → Finds a set
      → s.database ≡ object d
      → create_db w.built set.database ≡ Outcome.throws why
      → load_config w a s ≡ done (without_database set s, false)
  unfolding load_config with_result apply_settings connect_database
  fails_over a set s d why named found opened unknown = rw (named, found, opened, unknown) refl

  dies_again :
      (a : Attempt) (set : Settings) (s : DaZeus D)
      → is_empty s.config_file_name ≡ false
      → Finds a set
      → s.database ≡ dangling
      → load_config w a s ≡ dies undefined_behaviour
  unfolding load_config with_result apply_settings connect_database
  dies_again a set s named found gone = rw (named, found, gone) refl

  -- If the configuration file names a database that the bot was not built with, while a database is
  -- open, then `loadConfig` returns false, with `database_` and the pointer of `plugins_` left to
  -- an object that was deleted; and the next `loadConfig` that reads its file, whatever is in it,
  -- deletes the object again, which is undefined.
  pub load_config-deletes_twice :
      (first second : Attempt) (bad good : Settings) (s : DaZeus D) (d : D) (why : Str)
      → is_empty s.config_file_name ≡ false
      → Finds first bad
      → Finds second good
      → s.database ≡ object d
      → create_db w.built bad.database ≡ Outcome.throws why
      → (load_config w first s ≡ done (without_database bad s, false))
        × (load_config w second (without_database bad s) ≡ dies undefined_behaviour)
  load_config-deletes_twice first second bad good s d why named found again opened unknown = (
    fails_over first bad s d why named found opened unknown,
    dies_again second good (without_database bad s) named again refl,
  )
