-- ===== src/Connections/Accepted.antt =====
-- The connections after `newTcpConnection` or `newLocalConnection` (src/plugincomm.cpp).
use dazeus_core.Base.{
  ℕ, ◌≡◌, refl, ◌∙◌, List, [], ◌∷◌, Bool, false, ◌||◌, ◌==◌, Option, none, some, arith,
  if◌then◌else◌,
}
use dazeus_core.Text.{Str}
use dazeus_core.Run.{Gives, gives, Gives-bind, Gives-mono}
use dazeus_core.Socket.{SocketInfo, new_socket}
use dazeus_core.Connections.Opening.{assign_socket, accept_all, new_connections}
use dazeus_core.Connections.Removal.{among}

-- `sockets_.find(fd)`
abbrev pub find_socket : ℕ → List (ℕ × SocketInfo) → Option SocketInfo
find_socket fd [] = none
find_socket fd ((k, info) ∷ rest) = if k == fd then some info else find_socket fd rest

find_socket-assign_socket :
    (fd k : ℕ) (info : SocketInfo) (s : List (ℕ × SocketInfo))
    → find_socket k (assign_socket fd info s) ≡ (if fd == k then some info else find_socket k s)
unfolding assign_socket
find_socket-assign_socket fd k info [] = refl
find_socket-assign_socket fd k info ((i, old) ∷ s) =
    ground (arith, find_socket-assign_socket fd k info s)

-- the descriptors that `accept` gave for any of the servers
abbrev pub was_accepted : (ℕ → List ℕ) → List ℕ → ℕ → Bool
was_accepted accepts [] k = false
was_accepted accepts (server ∷ servers) k =
    among k (accepts server) || was_accepted accepts servers k

-- a connection that was accepted is new, and any other is as it was
abbrev pub Accepts : Str → (ℕ → Bool) → List (ℕ × SocketInfo) → List (ℕ × SocketInfo) → Type 0
Accepts kind accepted s t =
    (k : ℕ) → find_socket k t ≡ (if accepted k then some (new_socket kind) else find_socket k s)

accept_all-Accepts :
    (kind : Str) (fds : List ℕ) (s : List (ℕ × SocketInfo))
    → Gives (Accepts kind (λ k. among k fds) s) (accept_all kind fds s)
unfolding accept_all
accept_all-Accepts kind [] s = gives (λ k. refl)
accept_all-Accepts kind (fd ∷ fds) s =
    Gives-mono (accept_all-Accepts kind fds (assign_socket fd (new_socket kind) s))
      (λ t a k. a k ∙ ground (arith, find_socket-assign_socket fd k (new_socket kind) s))

-- `newTcpConnection` and `newLocalConnection` end, their assertion holds, and behind them each
-- accepted descriptor stands for a new connection that made no handshake, in place of what it stood
-- for before; every other connection is as it was.
pub new_connections_lem :
    (accepts : ℕ → List ℕ) (kind : Str) (servers : List ℕ) (s : List (ℕ × SocketInfo))
    → Gives (Accepts kind (was_accepted accepts servers) s) (new_connections accepts kind servers s)
unfolding new_connections
new_connections_lem accepts kind [] s = gives (λ k. refl)
new_connections_lem accepts kind (server ∷ servers) s =
    Gives-bind (accept_all-Accepts kind (accepts server) s) λ t a.
      Gives-mono (new_connections_lem accepts kind servers t) (λ v b k. b k ∙ ground (arith, a k))
