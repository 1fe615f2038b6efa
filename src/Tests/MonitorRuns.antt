-- ===== src/Tests/MonitorRuns.antt =====
-- The plugin monitor and the settings of a plugin.
use dazeus_core.Base.{
  ℕ, ◌≡◌, refl, true, false, List, [], ◌∷◌, none, some, arith, ltb, ◌==◌, ◌*◌, ◌^◌, if◌then◌else◌,
  All,
}
use dazeus_core.Text.{Str, lit}
use dazeus_core.Run.{done}
use dazeus_core.Settings.{PluginConfig}
use dazeus_core.Monitor.{PluginState, Host, Monitor, exited, wait_seconds, run_once}
use dazeus_core.Monitor.Arguments.{parse_arguments}
use dazeus_core.Monitor.Backoff.{wait_seconds_lem}
use dazeus_core.Monitor.RunOnce.{IsSettled, run_once-IsSettled}

-- every file is there, and each fork gives the pid 7
abbrev host : Host
host = record {
  directory_exists = λ s. true;
  file_exists = λ s. true;
  executable_exists = λ s. true;
  fork = λ k path arguments executable. some 7;
  plugin_directory = [];
  socket = done [];
}

abbrev echo : PluginConfig
echo = record {
  name = [];
  path = [];
  executable = [];
  per_network = false;
  parameters = [];
  config = [];
}

abbrev stopped : PluginState
stopped = record {
  config = echo;
  will_autostart = true;
  pid = 7;
  network = [];
  num_failures = 0;
  last_start = 0;
}

-- the child with the pid 7 has ended
abbrev before : Monitor
before = record { states = ([], stopped) ∷ []; should_run = true; forks = 0 }

abbrev after_it : Monitor
after_it = record {
  states = ([], record stopped { num_failures = 1; last_start = 9 }) ∷ [];
  should_run = false;
  forks = 1;
}

started_again : run_once host 9 ((7, exited) ∷ []) before ≡ done after_it
unfolding run_once
started_again = refl

live :
    (k p : ℕ) (path executable : Str) (arguments : List Str)
    → host.fork k path arguments executable ≡ some p
    → (p == 0) ≡ false
live k p path executable arguments e = ground arith

run_once-IsSettled_example : All (λ p. IsSettled host 9 tt p.1) after_it.states
run_once-IsSettled_example =
    run_once-IsSettled host 9 tt live ((7, exited) ∷ []) before after_it refl started_again refl

wait_seconds_lem_example :
    wait_seconds 31
    ≡ (if ltb 30 29 then some (if ltb 300 (5 * 2 ^ 30) then 300 else 5 * 2 ^ 30) else none)
wait_seconds_lem_example = wait_seconds_lem 30

split_text :
    parse_arguments (done (lit "unix:s")) (lit "net") (lit "-n %n '%s x'")
    ≡ done (lit "-n" ∷ lit "net" ∷ lit "%s x" ∷ [])
unfolding parse_arguments lit
split_text = refl
