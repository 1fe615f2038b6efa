-- ===== src/Connections/Failures.antt =====
-- A TCP server whose `bind` fails, in `PluginComm::init` (src/plugincomm.cpp).
use dazeus_core.Base.{
  ℕ, ◌+◌, ◌≡◌, refl, subst, List, [], ◌∷◌, ◌++◌, true, false, not, ◌||◌, ◌==◌, Option, none, some,
  arith, length, leb,
}
use dazeus_core.Text.{Str, is, lit, str_eq}
use dazeus_core.Json.{c_str}
use dazeus_core.Run.{Yields, Yields-bind, Yields-if}
use dazeus_core.Settings.{SocketConfig}
use dazeus_core.Connections.Opening.{
  Opening, Servers, opened, path_max, listen_unix, open_unix, open_tcp, open_server, open_servers,
  init,
}
use dazeus_core.Connections.Opened.{open_server-Stops}
use dazeus_core.Connections.Removal.{among}

among-append : (k : ℕ) (xs ys : List ℕ) → among k (xs ++ ys) ≡ (among k xs || among k ys)
among-append k [] ys = refl
among-append k (x ∷ xs) ys = ground (arith, among-append k xs ys)

-- a TCP server that was closed
abbrev pub IsClosedServer : ℕ → Servers → Type 0
IsClosedServer fd v = (among fd v.tcp_servers ≡ true) × (among fd v.closed ≡ true)

append-among : (fd : ℕ) (xs ys : List ℕ) → among fd xs ≡ true → among fd (xs ++ ys) ≡ true
append-among fd xs ys h = rw (among-append fd xs ys, h) refl

module _ (fd : ℕ) where
  open_unix-closed :
      (o : Opening) (sc : SocketConfig) (v : Servers) (s : Option ℕ)
      → IsClosedServer fd v
      → Yields (IsClosedServer fd) (open_unix o sc v s)
  unfolding open_unix
  open_unix-closed o sc v none h = h
  open_unix-closed o sc v (some server) h =
      Yields-if (IsClosedServer fd) (leb path_max (length (c_str sc.path))) _ _ (λ _. tt)
        λ _.
          Yields-if (IsClosedServer fd) (not o.bound) _ _
            (λ _. (h.0, append-among fd v.closed (server ∷ []) h.1)) (λ _. listened o.real_path)
    where
      listened : (p : Option Str) → Yields (IsClosedServer fd) (listen_unix o sc v server p)
      listened none = tt
      listened (some path) = (h.0, append-among fd v.closed _ h.1)

  open_tcp-closed :
      (o : Opening) (sc : SocketConfig) (v : Servers) (s : Option ℕ)
      → IsClosedServer fd v
      → IsClosedServer fd (open_tcp o sc v s)
  unfolding open_tcp
  open_tcp-closed o sc v none h = h
  open_tcp-closed o sc v (some server) h =
      (append-among fd v.tcp_servers (server ∷ []) h.0, append-among fd v.closed _ h.1)

  open_server-closed :
      (o : Opening) (sc : SocketConfig) (v : Servers)
      → IsClosedServer fd v
      → Yields (IsClosedServer fd) (open_server o sc v)
  unfolding open_server
  open_server-closed o sc v h =
      Yields-if (IsClosedServer fd) (is sc.kind "unix") _ _
        (λ _. open_unix-closed o sc v (opened o.socket) h)
        λ _.
          Yields-if (IsClosedServer fd) (is sc.kind "tcp") _ _
            (λ _.
              Yields-if (IsClosedServer fd) (not o.resolved) _ _ (λ _. h)
                (λ _. open_tcp-closed o sc v (opened o.socket) h))
            (λ _. h)

  open_servers-closed :
      (os : ℕ → Opening) (i : ℕ) (configs : List SocketConfig) (v : Servers)
      → IsClosedServer fd v
      → Yields (IsClosedServer fd) (open_servers os i configs v)
  unfolding open_servers
  open_servers-closed os i [] v h = h
  open_servers-closed os i (sc ∷ scs) v h =
      Yields-bind (IsClosedServer fd) (IsClosedServer fd) _ _ (open_server-closed (os i) sc v h)
        (λ v' h'. open_servers-closed os (i + 1) scs v' h')

-- a socket of which `bind` fails
pub record FailsToBind (o : Opening) (fd : ℕ) : Type 0 where
  pub resolved : o.resolved ≡ true
  pub socket : o.socket ≡ some fd
  pub positive : (fd == 0) ≡ false
  pub unbound : o.bound ≡ false

among-last : (fd : ℕ) (xs ys : List ℕ) → among fd (xs ++ (fd ∷ ys)) ≡ true
among-last fd [] ys = ground arith
among-last fd (x ∷ xs) ys = ground (arith, among-last fd xs ys)

open_tcp-fails :
    (o : Opening) (sc : SocketConfig) (v : Servers) (fd : ℕ)
    → sc.kind ≡ lit "tcp"
    → FailsToBind o fd
    → Yields (IsClosedServer fd) (open_server o sc v)
unfolding open_server is lit str_eq
open_tcp-fails o sc v fd kind f =
    rw (kind, f.resolved, f.socket, f.positive, f.unbound)
      (among-last fd v.tcp_servers [], among-last fd v.closed _)

open_servers-fails :
    (os : ℕ → Opening) (i : ℕ) (pre post : List SocketConfig) (sc : SocketConfig) (v : Servers)
    (fd : ℕ)
    → sc.kind ≡ lit "tcp"
    → FailsToBind (os (i + length pre)) fd
    → Yields (IsClosedServer fd) (open_servers os i (pre ++ sc ∷ post) v)
unfolding open_servers
open_servers-fails os i [] post sc v fd kind f =
    Yields-bind (IsClosedServer fd) (IsClosedServer fd) _ _
      (open_tcp-fails (os i) sc v fd kind
        (subst (λ (n : ℕ). FailsToBind (os n) fd) (omega arith) f))
      (λ v' h. open_servers-closed fd os (i + 1) post v' h)
open_servers-fails os i (p ∷ pre) post sc v fd kind f =
    Yields-bind (λ _. Unit {0}) (IsClosedServer fd) _ _ (open_server-Stops (os i) p v)
      (λ v' _.
        open_servers-fails os (i + 1) pre post sc v' fd kind
          (subst (λ (n : ℕ). FailsToBind (os n) fd) (omega arith) f))

-- If `bind` fails for one of the TCP sockets of the configuration, whatever the others meet, then
-- after `init` its descriptor, which was closed, stands among the servers, from which `run` goes on
-- to read.
pub init-IsClosedServer :
    (os : ℕ → Opening) (pre post : List SocketConfig) (sc : SocketConfig) (fd : ℕ)
    → sc.kind ≡ lit "tcp"
    → FailsToBind (os (length pre)) fd
    → Yields (IsClosedServer fd) (init os (pre ++ sc ∷ post))
unfolding init
init-IsClosedServer os pre post sc fd kind f =
    open_servers-fails os 0 pre post sc _ fd kind
      (subst (λ (n : ℕ). FailsToBind (os n) fd) (omega arith) f)
