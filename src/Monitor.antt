-- ===== src/Monitor.antt =====
-- `PluginMonitor` (src/pluginmonitor.cpp): the processes of the plugins, started, watched and
-- started again. Signals are blocked while `runOnce` runs, so it is one step.
pub mod Arguments
pub mod Backoff
pub mod RunOnce
pub mod Reload
use dazeus_core.Base.{
  ℕ, suc, ◌+◌, ◌-◌, ◌*◌, ◌^◌, Bool, true, false, not, ◌&&◌, ◌||◌, List, [], ◌∷◌, ◌++◌, Option, none,
  some, ◌==◌, ltb, leb, if◌then◌else◌, is_empty,
}
use dazeus_core.Text.{Str, str_eq, lit}
use dazeus_core.Text.Decimal.{int_max}
use dazeus_core.Run.{Run, done, dies, undefined_behaviour, ◌>>=◌}
use dazeus_core.Settings.{PluginConfig}
use Arguments.{parse_arguments}

-- `pid` is 0 while the plugin does not run.
pub record PluginState : Type 0 where
  pub config : PluginConfig
  pub will_autostart : Bool
  pub pid : ℕ
  pub network : Str
  pub num_failures : ℕ
  pub last_start : ℕ

abbrev runtime_reset_failure : ℕ
runtime_reset_failure = 3600

abbrev runtime_max_wait_time : ℕ
runtime_max_wait_time = 300

-- What the operating system answers: `stat`, `access`, and the n-th `fork_plugin`, for a path,
-- arguments and an executable, `none` where it fails.
-- `socket` is `config_->getPluginSocket().toString()`.
pub record Host : Type 0 where
  pub directory_exists : Str → Bool
  pub file_exists : Str → Bool
  pub executable_exists : Str → Bool
  pub fork : ℕ → Str → List Str → Str → Option ℕ
  pub plugin_directory : Str
  pub socket : Run Str

-- `PluginMonitor::plugin_failed`
unfoldable pub plugin_failed : PluginState → Bool → PluginState
plugin_failed state permanent =
    if permanent
    then record state { will_autostart = false }
    else record state { num_failures = state.num_failures + 1 }

-- `s[0] != '/'`; the first character of an empty string is its NUL
unfoldable is_relative : Str → Bool
is_relative [] = true
is_relative (c ∷ s) = not (c == b'/')

unfoldable pub path_of : Host → PluginConfig → Str
unfolding is_relative
path_of h config =
    let path = if is_empty config.path then config.name else config.path in
    if is_relative path then h.plugin_directory ++ (lit "/" ++ path) else path

unfoldable pub executable_of : PluginConfig → Str
executable_of config = if is_empty config.executable then config.name else config.executable

unfoldable pub full_executable_of : Str → Str → Str
unfolding is_relative
full_executable_of path executable =
    if is_relative executable then path ++ (lit "/" ++ executable) else executable

-- the parent's side of `fork_plugin`, and what follows it
unfoldable pub forked : PluginState → Option ℕ → PluginState × Bool
unfolding plugin_failed
forked state none = (plugin_failed state false, false)
forked state (some pid) = (record state { pid = pid }, true)

-- the checks and the fork; the number of forks made so far is passed on
unfoldable pub launch : Host → ℕ → List Str → PluginState → PluginState × Bool × ℕ
unfolding path_of executable_of full_executable_of forked plugin_failed
launch h forks arguments state =
    let path = path_of h state.config in
    let full_executable = full_executable_of path (executable_of state.config) in
    let failed = plugin_failed state false in
    if not (h.directory_exists path)
    then (failed, false, forks)
    else if not (h.file_exists full_executable)
    then (failed, false, forks)
    else if not (h.executable_exists full_executable)
    then (failed, false, forks)
    else let (state', started) =
        forked state (h.fork forks path arguments (executable_of state.config)) in
      (state', started, forks + 1)

-- `PluginMonitor::start_plugin`, called for a plugin whose pid is 0
unfoldable pub start_plugin : Host → ℕ → ℕ → PluginState → Run (PluginState × Bool × ℕ)
unfolding launch parse_arguments
start_plugin h now forks state =
    parse_arguments h.socket state.network state.config.parameters >>= λ arguments.
    done (launch h forks arguments (record state { last_start = now }))

-- a status of `wait4`
pub data ChildStatus : Type 0 where
  exited signaled neither : ChildStatus

-- `state->pid = 0` and the count of the failure
unfoldable pub child_died : ℕ → PluginState → PluginState
child_died now state = record state {
  pid = 0;
  num_failures =
      (if ltb (state.last_start + runtime_reset_failure) now then 0 else state.num_failures) + 1;
}

-- the first plugin with the pid of the child, if the child ended
unfoldable pub reap : ℕ → ℕ → ChildStatus → List (Str × PluginState) → List (Str × PluginState)
unfolding child_died
reap now child status [] = []
reap now child status ((name, state) ∷ rest) =
    if state.pid == child
    then (name, elim status [ neither ↦ state | _ ↦ child_died now state ]) ∷ rest
    else (name, state) ∷ reap now child status rest

-- the loop over `wait4`, which has no more children to tell of at the end of the list
unfoldable pub reap_all :
    ℕ → List (ℕ × ChildStatus) → List (Str × PluginState) → List (Str × PluginState)
unfolding reap
reap_all now [] states = states
reap_all now ((child, status) ∷ children) states =
    reap_all now children (reap now child status states)

-- `5 * (1 << (num_failures - 1))`, at most 300; `none` where the product is no `int`, which has no
-- defined value
unfoldable pub wait_seconds : ℕ → Option ℕ
wait_seconds num_failures =
    let wait = 5 * 2 ^ (num_failures - 1) in
    if num_failures == 0
    then some 0
    else if ltb int_max wait
    then none
    else some (if ltb runtime_max_wait_time wait then runtime_max_wait_time else wait)

-- one round of the loop that starts plugins: the new state, whether it waits, and the forks made
unfoldable pub visit : Host → ℕ → ℕ → PluginState → Option ℕ → Run (PluginState × Bool × ℕ)
unfolding start_plugin
visit h now forks state none = dies undefined_behaviour
visit h now forks state (some wait) =
    if ltb now (state.last_start + wait)
    then done (state, true, forks)
    else start_plugin h now forks state >>= λ (state', started, forks').
        done (state', not started, forks')

unfoldable pub consider : Host → ℕ → ℕ → PluginState → Run (PluginState × Bool × ℕ)
unfolding visit wait_seconds
consider h now forks state =
    if not state.will_autostart
    then done (state, false, forks)
    else if not (state.pid == 0)
    then done (state, false, forks)
    else visit h now forks state (wait_seconds state.num_failures)

unfoldable pub start_all :
    Host → ℕ → ℕ → List (Str × PluginState) → Run (List (Str × PluginState) × Bool × ℕ)
unfolding consider
start_all h now forks [] = done ([], false, forks)
start_all h now forks ((name, state) ∷ rest) =
    consider h now forks state >>= λ (state', waits, forks').
    start_all h now forks' rest >>= λ (rest', waiting, forks'').
    done ((name, state') ∷ rest', waits || waiting, forks'')

pub record Monitor : Type 0 where
  pub states : List (Str × PluginState)
  pub should_run : Bool
  pub forks : ℕ

-- `PluginMonitor::runOnce`; the clock is read as one value
unfoldable pub run_once : Host → ℕ → List (ℕ × ChildStatus) → Monitor → Run Monitor
unfolding reap_all start_all
run_once h now children m =
    if not m.should_run
    then done m
    else start_all h now m.forks (reap_all now children m.states) >>= λ (states, waiting, forks).
        done (record { states = states; should_run = waiting; forks = forks })
