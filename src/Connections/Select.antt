-- ===== src/Connections/Select.antt =====
-- `PluginComm::run` (src/plugincomm.cpp): waiting for a descriptor, and what is done then. The
-- networks add descriptors of their own, and call `ircEvent` while they process them.
use dazeus_core.Base.{ℕ, Bool, false, ◌||◌, List, [], ◌∷◌, ◌++◌, leb, ltb, is_empty, if◌then◌else◌}
use dazeus_core.Text.{Str, lit}
use dazeus_core.Run.{Run, done, dies, undefined_behaviour, ◌>>=◌}
use dazeus_core.Json.{Jansson}
use dazeus_core.External.{Utils, Networks}
use dazeus_core.Socket.{SocketInfo}
use dazeus_core.Comm.{Comm}
use dazeus_core.Comm.Events.{irc_event}
use dazeus_core.Requests.{Database, Bot}
use dazeus_core.Connections.Poll.{Device, poll}
use dazeus_core.Connections.Opening.{new_connections}

-- `FD_SETSIZE` of the C library: `FD_SET` of a larger descriptor writes behind the set
abbrev pub fd_setsize : ℕ
fd_setsize = 1024

-- the arguments of `select`
pub record Watched : Type 0 where
  pub highest : ℕ
  pub reading : List ℕ
  pub writing : List ℕ

-- how `select` ends: with an error, which is EBADF or another one, with no descriptor, or with the
-- descriptors that are ready
pub data Selected : Type 0 where
  fails : Bool → Selected
  times_out : Selected
  fires : (ℕ → Bool) → (ℕ → Bool) → Selected

-- a call of `ircEvent` that a network makes
pub record IrcCall : Type 0 where
  pub event : Str
  pub origin : Str
  pub params : List Str
  pub network : ℕ

-- What happens during one `run`: the highest descriptor and the descriptors that each active network
-- adds, what `select` answers for what it is asked, what `accept` gives for a server, the plugins'
-- devices, and the calls of the networks.
pub record Turnout : Type 0 where
  pub irc_sets : List Watched
  pub select : Watched → Selected
  pub accepts : ℕ → List ℕ
  pub devices : ℕ → Device
  pub irc_calls : List IrcCall

-- what `run` works on
pub record Connections (D : Type 0) : Type 0 where
  pub tcp_servers : List ℕ
  pub local_servers : List ℕ
  pub comm : Comm
  pub database : D

-- `if(fd > highest) highest = fd`
unfoldable pub raise : ℕ → ℕ → ℕ
raise highest fd = if ltb highest fd then fd else highest

-- `FD_SET`
unfoldable pub watch_reading : ℕ → Watched → Run Watched
unfolding raise
watch_reading fd w =
    if leb fd_setsize fd
    then dies undefined_behaviour
    else done (record w { highest = raise w.highest fd; reading = w.reading ++ fd ∷ [] })

unfoldable pub watch_servers : List ℕ → Watched → Run Watched
unfolding watch_reading
watch_servers [] w = done w
watch_servers (fd ∷ fds) w = watch_reading fd w >>= λ w'. watch_servers fds w'

unfoldable pub watch_sockets : List (ℕ × SocketInfo) → Watched → Run Watched
unfolding watch_reading
watch_sockets [] w = done w
watch_sockets ((fd, info) ∷ rest) w = watch_reading fd w >>= λ w'.
    watch_sockets rest
      (if is_empty info.writebuffer then w' else record w' { writing = w'.writing ++ fd ∷ [] })

-- `addDescriptors` of the networks
unfoldable pub watch_networks : List Watched → Watched → Watched
unfolding raise
watch_networks [] w = w
watch_networks (irc ∷ ircs) w = watch_networks ircs (record {
  highest = raise w.highest irc.highest;
  reading = w.reading ++ irc.reading;
  writing = w.writing ++ irc.writing;
})

-- the loops that call `newTcpConnection`, `newLocalConnection` or `poll` once, if one is ready
unfoldable pub any_ready : (ℕ → Bool) → List ℕ → Bool
any_ready ready [] = false
any_ready ready (fd ∷ fds) = ready fd || any_ready ready fds

unfoldable pub any_socket : (ℕ → Bool) → List (ℕ × SocketInfo) → Bool
any_socket ready [] = false
any_socket ready ((fd, info) ∷ rest) = ready fd || any_socket ready rest

module _ {D : Type 0} where
  unfoldable pub watch_all : List Watched → Connections D → Run Watched
  unfolding watch_servers watch_sockets watch_networks
  watch_all irc c =
      watch_servers c.tcp_servers (record { highest = 0; reading = []; writing = [] }) >>= λ w1.
      watch_servers c.local_servers w1 >>= λ w2.
      watch_sockets c.comm.sockets w2 >>= λ w3. done (watch_networks irc w3)

  unfoldable pub accept_new :
      (ℕ → List ℕ) → Str → Bool → List ℕ → Connections D → Run (Connections D)
  accept_new accepts kind ready servers c =
      if ready
      then (new_connections accepts kind servers c.comm.sockets >>= λ sockets.
          done (record c { comm = record c.comm { sockets = sockets } }))
      else done c

module _ {D : Type 0} (u : Utils) (j : Jansson) (nets : Networks) (db : Database D)
    (bot : Bot) where
  unfoldable pub poll_plugins : (ℕ → Device) → Connections D → Run (Connections D)
  unfolding poll
  poll_plugins devices c =
      poll u j nets db bot devices c.comm.sockets c.database c.comm.calls >>= λ r. done (record c {
        comm = record c.comm { sockets = r.sockets; calls = r.calls };
        database = r.database;
      })

  -- `processDescriptors` and `checkTimeouts` of the networks
  unfoldable pub process_networks : Str → List IrcCall → Comm → Run Comm
  process_networks highlight [] s = done s
  process_networks highlight (e ∷ es) s =
      irc_event u j nets highlight e.event e.origin e.params e.network s >>= λ t.
      process_networks highlight es t

  abbrev serve_networks : List IrcCall → Connections D → Run (Connections D)
  serve_networks es c =
      process_networks bot.global.highlight es c.comm >>= λ s. done (record c { comm = s })

  unfoldable pub after_select : Turnout → Selected → Connections D → Run (Connections D)
  unfolding any_ready any_socket accept_new poll_plugins process_networks
  after_select t (fails bad_descriptor) c =
      if bad_descriptor then poll_plugins t.devices c else done c
  after_select t times_out c = serve_networks t.irc_calls c
  after_select t (fires reads writes) c =
      accept_new t.accepts (lit "tcp") (any_ready reads c.tcp_servers) c.tcp_servers c >>= λ c1.
      accept_new t.accepts (lit "unix") (any_ready reads c1.local_servers) c1.local_servers c1
      >>= λ c2.
          (if any_socket (λ fd. reads fd || writes fd) c2.comm.sockets
            then poll_plugins t.devices c2
            else done c2)
          >>= λ c3. serve_networks t.irc_calls c3

  -- `PluginComm::run`
  unfoldable pub run : Turnout → Connections D → Run (Connections D)
  unfolding watch_all after_select
  run t c = watch_all t.irc_sets c >>= λ w. after_select t (t.select w) c
