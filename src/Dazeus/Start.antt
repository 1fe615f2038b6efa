-- ===== src/Dazeus/Start.antt =====
-- The start of the program (src/main.cpp): the options of the command line, and the life of the one
-- bot. The signals SIGCHLD and SIGHUP are the calls `child` and `reload_config` of a round.
use dazeus_core.Base.{ℕ, Bool, true, false, List, [], ◌∷◌, if◌then◌else◌}
use dazeus_core.Text.{Str, lit, is}
use dazeus_core.Run.{Run, done, ◌>>=◌}
use dazeus_core.Monitor.Reload.{Pass}
use dazeus_core.Dazeus.{new_dazeus}
use dazeus_core.Dazeus.Load.{World}
use dazeus_core.Dazeus.Loop.{Round, run, close}

-- the bot is started with a configuration file, or the process ends with a code
pub data Start : Type 0 where
  starts_with : Str → Start
  exits : ℕ → Start

-- the loop over the arguments behind the program's name; the Boolean is whether `type` is "config"
unfoldable pub options : Str → Bool → List Str → Start
options configfile type [] = starts_with configfile
options configfile true (arg ∷ args) = options arg false args
options configfile false (arg ∷ args) =
    let rest = options configfile true args in
    if is arg "-h" then exits 1 else if is arg "-c" then rest else exits 2

-- DAZEUS_DEFAULT_CONFIGFILE
abbrev default_config_file : Str
default_config_file = lit "dazeus.conf"

module _ {D : Type 0} (w : World D) where
  -- `new`, `run` and `delete`
  unfoldable pub live : List (Round D) → Pass → Pass → Start → Run ℕ
  unfolding new_dazeus run close
  live rounds soft hard (exits code) = done code
  live rounds soft hard (starts_with configfile) =
      run w rounds (new_dazeus configfile) >>= λ s. close w soft hard s >>= λ t. done 0

  -- `main`; what the main loop meets and how the plugins end is given
  unfoldable pub main : List (Round D) → Pass → Pass → List Str → Run ℕ
  unfolding live options lit
  main rounds soft hard args = live rounds soft hard (options default_config_file false args)
