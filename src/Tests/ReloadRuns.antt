-- ===== src/Tests/ReloadRuns.antt =====
-- A reload of the plugins: `p` stands in the map, `q` is new.
use dazeus_core.Base.{refl, true, false, ℕ, [], ◌∷◌, some}
use dazeus_core.Text.{Str}
use dazeus_core.Run.{done, EndsWith}
use dazeus_core.Settings.{PluginConfig, NetworkConfig}
use dazeus_core.Monitor.{Host, Monitor}
use dazeus_core.Monitor.Reload.{Pass, kill_plugins, config_reloaded}
use dazeus_core.Monitor.Reload.Signals.{AfterKill, kill_plugins-Yields}
use dazeus_core.Monitor.Reload.Kept.{Unlucky}
use dazeus_core.Monitor.Reload.Follows.{Reloads, CutOff, config_reloaded_lem}
use dazeus_core.Tests.Samples.{utils, utils-laws}

-- each fork gives the pid 9
abbrev host : Host
host = record {
  directory_exists = λ s. true;
  file_exists = λ s. true;
  executable_exists = λ s. true;
  fork = λ k path arguments executable. some 9;
  plugin_directory = [];
  socket = done [];
}

abbrev plugin : Str → PluginConfig
plugin name = record {
  name = name;
  path = [];
  executable = [];
  per_network = true;
  parameters = [];
  config = [];
}

abbrev net : NetworkConfig
net = record {
  name = b'n' ∷ [];
  display_name = [];
  nick_name = [];
  user_name = [];
  full_name = [];
  password = [];
  auto_connect = false;
  servers = [];
}

abbrev old : Monitor
old = record {
  states =
      (
        b'p' ∷ [],
        record {
          config = plugin (b'p' ∷ []);
          will_autostart = true;
          pid = 7;
          network = [];
          num_failures = 2;
          last_start = 0;
        },
      )
      ∷ [];
  should_run = false;
  forks = 0;
}

-- SIGCHLD does not come
abbrev quiet : ℕ → Pass
quiet now = record { signalled = false; now = now; children = [] }

config_reloaded_lem_example :
    EndsWith
      (Reloads utils utils-laws host tt
        (net ∷ [])
        (refl, tt)
        (plugin (b'q' ∷ []) ∷ [])
        (refl, tt)
        (quiet 1)
        (quiet 3)
        (quiet 5)
        old.states)
      (CutOff utils utils-laws host tt
        (net ∷ [])
        (refl, tt)
        (plugin (b'q' ∷ []) ∷ [])
        (refl, tt)
        (quiet 1)
        (quiet 3)
        (quiet 5))
      (config_reloaded utils host
        (net ∷ [])
        (plugin (b'q' ∷ []) ∷ [])
        (quiet 1)
        (quiet 3)
        (quiet 5)
        old)
config_reloaded_lem_example =
    config_reloaded_lem utils utils-laws host tt (net ∷ []) (refl, tt) (plugin (b'q' ∷ []) ∷ [])
      (refl, tt) (quiet 1) (quiet 3) (quiet 5) old

kill_plugins-Yields_example :
    EndsWith
      (AfterKill host tt (quiet 1) (quiet 3) ((b'p' ∷ []) ∷ []) old)
      (Unlucky host)
      (kill_plugins host (quiet 1) (quiet 3) ((b'p' ∷ []) ∷ []) old)
kill_plugins-Yields_example = kill_plugins-Yields host tt (quiet 1) (quiet 3) ((b'p' ∷ []) ∷ []) old
