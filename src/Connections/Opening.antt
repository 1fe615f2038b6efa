-- ===== src/Connections/Opening.antt =====
-- `PluginComm::init`, `newTcpConnection` and `newLocalConnection` (src/plugincomm.cpp).
use dazeus_core.Base.{
  ℕ, ◌+◌, Bool, not, List, [], ◌∷◌, ◌++◌, Option, none, some, ◌==◌, ltb, leb, length, if◌then◌else◌,
}
use dazeus_core.Text.{Str, lit, is}
use dazeus_core.Run.{Run, done, dies, assert_failed, undefined_behaviour, ◌>>=◌}
use dazeus_core.Json.{c_str}
use dazeus_core.Settings.{SocketConfig}
use dazeus_core.Socket.{SocketInfo, new_socket, did_handshake}

-- What the system calls answer for one socket of the configuration: whether `getaddrinfo` finds the
-- host, the descriptor of `socket` (none for -1), whether `bind` and `listen` succeed, the path that
-- `realpath` gives if it succeeds, and whether the address is INADDR_ANY.
pub record Opening : Type 0 where
  pub resolved : Bool
  pub socket : Option ℕ
  pub bound : Bool
  pub listening : Bool
  pub real_path : Option Str
  pub any_address : Bool

-- what `init` changes: the two vectors of servers, and the configuration that the plugins are given;
-- `closed` are the descriptors that were closed
pub record Servers : Type 0 where
  pub tcp_servers : List ℕ
  pub local_servers : List ℕ
  pub configs : List SocketConfig
  pub closed : List ℕ

-- the size of `sockaddr_un::sun_path`
abbrev pub path_max : ℕ
path_max = 108

-- a descriptor that is 0 counts as a failure
unfoldable pub opened : Option ℕ → Option ℕ
opened none = none
opened (some fd) = if fd == 0 then none else some fd

-- the configuration is left as it is
abbrev pub keep : SocketConfig → Servers → Servers
keep sc v = record v { configs = v.configs ++ sc ∷ [] }

abbrev closed_unless : Bool → ℕ → List ℕ
closed_unless ok fd = if ok then [] else fd ∷ []

-- after `bind`: the buffer of `realpath` is not set where that fails
unfoldable pub listen_unix : Opening → SocketConfig → Servers → ℕ → Option Str → Run Servers
listen_unix o sc v server none = dies undefined_behaviour
listen_unix o sc v server (some path) = done (record v {
  local_servers = v.local_servers ++ server ∷ [];
  configs = v.configs ++ record sc { path = path } ∷ [];
  closed = v.closed ++ closed_unless o.listening server;
})

-- the branch for Unix sockets; `strcpy` writes the text and a NUL
unfoldable pub open_unix : Opening → SocketConfig → Servers → Option ℕ → Run Servers
unfolding c_str listen_unix
open_unix o sc v none = done (keep sc v)
open_unix o sc v (some server) =
    if leb path_max (length (c_str sc.path))
    then dies undefined_behaviour
    else if not o.bound
    then done (record v { configs = v.configs ++ sc ∷ []; closed = v.closed ++ server ∷ [] })
    else listen_unix o sc v server o.real_path

-- the branch for TCP sockets: neither a failed `bind` nor a failed `listen` ends it
unfoldable pub open_tcp : Opening → SocketConfig → Servers → Option ℕ → Servers
unfolding lit
open_tcp o sc v none = keep sc v
open_tcp o sc v (some server) = record v {
  tcp_servers = v.tcp_servers ++ server ∷ [];
  configs = v.configs ++ (if o.any_address then record sc { host = lit "127.0.0.1" } else sc) ∷ [];
  closed = v.closed ++ (closed_unless o.bound server ++ closed_unless o.listening server);
}

unfoldable pub open_server : Opening → SocketConfig → Servers → Run Servers
unfolding open_unix open_tcp opened is
open_server o sc v =
    if is sc.kind "unix"
    then open_unix o sc v (opened o.socket)
    else if is sc.kind "tcp"
    then (if not o.resolved then done (keep sc v) else done (open_tcp o sc v (opened o.socket)))
    else done (keep sc v)

-- the loop over the sockets of the configuration, the i-th of which meets `os i`
unfoldable pub open_servers : (ℕ → Opening) → ℕ → List SocketConfig → Servers → Run Servers
unfolding open_server
open_servers os i [] v = done v
open_servers os i (sc ∷ scs) v = open_server (os i) sc v >>= λ v'. open_servers os (i + 1) scs v'

unfoldable pub init : (ℕ → Opening) → List SocketConfig → Run Servers
unfolding open_servers
init os configs =
    open_servers os 0 configs
      (record { tcp_servers = []; local_servers = []; configs = []; closed = [] })

-- `sockets_[fd] = info`, in the order of the descriptors
unfoldable pub assign_socket : ℕ → SocketInfo → List (ℕ × SocketInfo) → List (ℕ × SocketInfo)
assign_socket fd info [] = (fd, info) ∷ []
assign_socket fd info ((k, old) ∷ rest) =
    if k == fd
    then (fd, info) ∷ rest
    else if ltb fd k
    then (fd, info) ∷ (k, old) ∷ rest
    else (k, old) ∷ assign_socket fd info rest

-- the loop over `accept` for one server, with the descriptors that it gives before it fails
unfoldable pub accept_all : Str → List ℕ → List (ℕ × SocketInfo) → Run (List (ℕ × SocketInfo))
unfolding assign_socket new_socket did_handshake
accept_all kind [] sockets = done sockets
accept_all kind (fd ∷ fds) sockets =
    if did_handshake (new_socket kind)
    then dies assert_failed
    else accept_all kind fds (assign_socket fd (new_socket kind) sockets)

-- `newTcpConnection` and `newLocalConnection`, for the kinds "tcp" and "unix": `accepts` gives the
-- descriptors for each server
unfoldable pub new_connections :
    (ℕ → List ℕ) → Str → List ℕ → List (ℕ × SocketInfo) → Run (List (ℕ × SocketInfo))
unfolding accept_all
new_connections accepts kind [] sockets = done sockets
new_connections accepts kind (server ∷ servers) sockets =
    accept_all kind (accepts server) sockets >>= λ s. new_connections accepts kind servers s

-- the destructor: the descriptors that are closed, in order
unfoldable pub close_all : List (ℕ × SocketInfo) → Servers → List ℕ
close_all [] servers = servers.tcp_servers ++ servers.local_servers
close_all ((fd, info) ∷ rest) servers = fd ∷ close_all rest servers
