-- ===== src/Tests/ConfigRuns.antt =====
-- Configuration files, as the calls that dotconf makes for them.
use dazeus_core.Base.{◌≡◌, refl, true, false, is_empty, List, [], ◌∷◌, some, arith}
use dazeus_core.Text.{lit, str_eq, is}
use dazeus_core.Run.{done, dies, assert_failed, Gives}
use dazeus_core.Settings.{default_database, new_socket_config}
use dazeus_core.Config.{Cmd, ConfigReaderState, initial, is_some, s_socket}
use dazeus_core.Config.Reading.{Callback, opens, closes, command_loop, read}
use dazeus_core.Config.Sections.{
  takes_name, IsConsistent, in_socket, in_database, in_network, in_server, in_plugin,
}
use dazeus_core.Config.Safety.{command_loop-Gives}
use dazeus_core.Config.Ending.{is_pending, read-dies, read-Gives}
use dazeus_core.Tests.Samples.{utils, defaults, tag}

-- a database block, and then a socket block that is not closed
abbrev unclosed : List Callback
unclosed =
    opens (tag (lit "<database>"))
    ∷ closes (tag (lit "</database>"))
    ∷ opens (tag (lit "<socket>"))
    ∷ []

abbrev closed : List Callback
closed = opens (tag (lit "<database>")) ∷ closes (tag (lit "</database>")) ∷ []

abbrev database_read : ConfigReaderState
database_read = record initial { database_progress = some default_database }

abbrev in_a_socket : ConfigReaderState
in_a_socket = record database_read {
  current_section = s_socket;
  socket_progress = some new_socket_config;
}

closed_run : command_loop utils defaults initial closed ≡ done database_read
unfolding command_loop initial lit str_eq is
closed_run = refl

unclosed_run : command_loop utils defaults initial unclosed ≡ done in_a_socket
unfolding command_loop initial lit str_eq is
unclosed_run = refl

nameless : (cmd : Cmd) → takes_name cmd ≡ false → takes_name cmd ≡ true → is_empty cmd.str ≡ false
nameless cmd h e = absurd (ground arith)

database_name : takes_name (tag (lit "<database>")) ≡ false
unfolding lit is str_eq
database_name = refl

socket_name : takes_name (tag (lit "<socket>")) ≡ false
unfolding lit is str_eq
socket_name = refl

initial-IsConsistent : IsConsistent initial
unfolding initial in_socket in_database in_network in_server in_plugin is_some
initial-IsConsistent = record {
  socket = refl;
  database = λ h. ground arith;
  network = refl;
  server = refl;
  plugin = refl;
}

command_loop-Gives_example : Gives IsConsistent (command_loop utils defaults initial unclosed)
unfolding lit
command_loop-Gives_example =
    command_loop-Gives utils defaults initial unclosed
      (
        nameless (tag (lit "<database>")) database_name,
        (tt, (nameless (tag (lit "<socket>")) socket_name, tt)),
      )
      initial-IsConsistent

read-dies_example : read utils defaults true true unclosed ≡ dies assert_failed
unfolding lit initial is_some is_pending
read-dies_example =
    read-dies utils defaults unclosed in_a_socket
      (
        nameless (tag (lit "<database>")) database_name,
        (tt, (nameless (tag (lit "<socket>")) socket_name, tt)),
      )
      unclosed_run refl refl refl

read-Gives_example : Gives (λ r. Unit {0}) (read utils defaults true true closed)
unfolding lit initial is_pending
read-Gives_example =
    read-Gives utils defaults true true closed database_read
      (nameless (tag (lit "<database>")) database_name, (tt, tt)) closed_run refl
