-- ===== src/Tests/ConnectionRuns.antt =====
-- Two plugins that are connected, and the sockets on which the bot waits for others.
use dazeus_core.Base.{ℕ, ◌+◌, refl, true, false, [], ◌∷◌, some, arith, ◌==◌, if◌then◌else◌}
use dazeus_core.Text.{Str, lit}
use dazeus_core.Text.Decimal.{is_digit, decimal}
use dazeus_core.Run.{EndsWith, Yields, Gives}
use dazeus_core.Wire.{encode}
use dazeus_core.Wire.RoundTrip.{stream}
use dazeus_core.Settings.{SocketConfig}
use dazeus_core.Socket.{SocketInfo}
use dazeus_core.Connections.Poll.{
  Device, fine, broken, nothing_more, blocked, poll_one, poll, read_all,
}
use dazeus_core.Connections.Opening.{Opening, new_connections, init}
use dazeus_core.Connections.Select.{Connections, Watched, watch_all}
use dazeus_core.Connections.Traffic.{request, Serves, poll_one_lem}
use dazeus_core.Requests.Replies.{BrokenOff}
use dazeus_core.Connections.Removal.{Polls, poll_lem}
use dazeus_core.Connections.Watching.{Watches, watch_all_lem}
use dazeus_core.Connections.Accepted.{Accepts, was_accepted, new_connections_lem}
use dazeus_core.Connections.Failures.{IsClosedServer, init-IsClosedServer}
use dazeus_core.Tests.Samples.{utils, jansson, nets, database, bot_settings, silent_plugin}

-- a plugin for which an event waits
abbrev plugin : SocketInfo
plugin = record silent_plugin {
  frame = record { waiting_size = 0; readahead = lit "\n" };
  writebuffer = lit "2{}\n";
}

-- one packet in two chunks; three bytes can be written
abbrev device : Device
device = record {
  check = fine;
  chunks = lit "2{" ∷ lit "}\n" ∷ [];
  read_end = nothing_more;
  accepted = 3 ∷ [];
  write_end = blocked;
}

poll_one_lem_example :
    EndsWith
      (Serves utils jansson nets database bot_settings
        (request utils jansson nets database bot_settings plugin [] [])
        (lit "{}" ∷ []))
      (BrokenOff utils jansson nets database bot_settings
        (request utils jansson nets database bot_settings plugin [] [])
        (lit "{}" ∷ []))
      (poll_one utils jansson nets database bot_settings device fine plugin [] [])
unfolding lit
poll_one_lem_example =
    poll_one_lem utils jansson nets database bot_settings device plugin [] [] (lit "\n")
      (lit "{}" ∷ []) refl (unfold read_all stream encode decimal in refl)
      (unfold is_digit in ((refl, refl), tt)) ((refl, omega arith), tt)
      (unfold stream encode decimal in omega arith)

-- the second plugin has hung up
abbrev devices : ℕ → Device
devices fd = if fd == 7 then record device { check = broken } else device

poll_lem_example :
    Yields
      (Polls utils jansson nets database bot_settings devices ((4, plugin) ∷ (7, plugin) ∷ []))
      (poll utils jansson nets database bot_settings devices ((4, plugin) ∷ (7, plugin) ∷ []) [] [])
poll_lem_example =
    poll_lem utils jansson nets database bot_settings devices ((4, plugin) ∷ (7, plugin) ∷ []) [] []
      (refl, (refl, tt))

-- one server of each kind, and a plugin
abbrev connections : Connections Str
connections = record {
  tcp_servers = 3 ∷ [];
  local_servers = 5 ∷ [];
  comm = record { sockets = (4, plugin) ∷ []; command_queue = []; calls = [] };
  database = [];
}

abbrev irc : Watched
irc = record { highest = 9; reading = 9 ∷ []; writing = [] }

watch_all_lem_example : Gives (Watches (irc ∷ []) connections) (watch_all (irc ∷ []) connections)
watch_all_lem_example =
    watch_all_lem (irc ∷ []) connections (omega arith, tt) (omega arith, tt) (omega arith, tt)
      (((omega arith, tt), tt), tt)

new_connections_lem_example :
    Gives
      (Accepts (lit "tcp") (was_accepted (λ server. 6 ∷ 8 ∷ []) (3 ∷ [])) ((4, plugin) ∷ []))
      (new_connections (λ server. 6 ∷ 8 ∷ []) (lit "tcp") (3 ∷ []) ((4, plugin) ∷ []))
new_connections_lem_example =
    new_connections_lem (λ server. 6 ∷ 8 ∷ []) (lit "tcp") (3 ∷ []) ((4, plugin) ∷ [])

-- the port of the second socket is taken
abbrev opening : ℕ → Opening
opening i = record {
  resolved = true;
  socket = some (i + 3);
  bound = i == 0;
  listening = i == 0;
  real_path = some (lit "/run/dazeus");
  any_address = false;
}

abbrev unix : SocketConfig
unix = record { kind = lit "unix"; host = []; port = 0; path = lit "dazeus" }

abbrev tcp : SocketConfig
tcp = record { kind = lit "tcp"; host = lit "localhost"; port = 1234; path = [] }

init-IsClosedServer_example : Yields (IsClosedServer 4) (init opening (unix ∷ tcp ∷ []))
init-IsClosedServer_example =
    init-IsClosedServer opening (unix ∷ []) [] tcp 4 refl
      (record { resolved = refl; socket = refl; positive = refl; unbound = refl })
