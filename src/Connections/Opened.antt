-- ===== src/Connections/Opened.antt =====
-- `PluginComm::init` (src/plugincomm.cpp) ends.
use dazeus_core.Base.{ℕ, ◌+◌, List, [], ◌∷◌, Option, none, some, not, leb, length}
use dazeus_core.Text.{Str, is}
use dazeus_core.Json.{c_str}
use dazeus_core.Run.{Yields-bind, Yields-if, Stops}
use dazeus_core.Settings.{SocketConfig}
use dazeus_core.Connections.Opening.{
  Opening, Servers, opened, path_max, listen_unix, open_unix, open_server, open_servers, init,
}

open_unix-Stops :
    (o : Opening) (sc : SocketConfig) (v : Servers) (s : Option ℕ) → Stops (open_unix o sc v s)
unfolding open_unix
open_unix-Stops o sc v none = tt
open_unix-Stops o sc v (some server) =
    Yields-if _ (leb path_max (length (c_str sc.path))) _ _ (λ _. tt)
      λ _. Yields-if _ (not o.bound) _ _ (λ _. tt) (λ _. listened o.real_path)
  where
    listened : (p : Option Str) → Stops (listen_unix o sc v server p)
    listened none = tt
    listened (some path) = tt

pub open_server-Stops : (o : Opening) (sc : SocketConfig) (v : Servers) → Stops (open_server o sc v)
unfolding open_server
open_server-Stops o sc v =
    Yields-if _ (is sc.kind "unix") _ _ (λ _. open_unix-Stops o sc v (opened o.socket))
      λ _.
        Yields-if _ (is sc.kind "tcp") _ _
          (λ _. Yields-if _ (not o.resolved) _ _ (λ _. tt) (λ _. tt)) (λ _. tt)

open_servers-Stops :
    (os : ℕ → Opening) (i : ℕ) (configs : List SocketConfig) (v : Servers)
    → Stops (open_servers os i configs v)
unfolding open_servers
open_servers-Stops os i [] v = tt
open_servers-Stops os i (sc ∷ scs) v =
    Yields-bind (λ _. Unit {0}) (λ _. Unit {0}) _ _ (open_server-Stops (os i) sc v)
      (λ v' _. open_servers-Stops os (i + 1) scs v')

pub init-Stops : (os : ℕ → Opening) (configs : List SocketConfig) → Stops (init os configs)
unfolding init
init-Stops os configs = open_servers-Stops os 0 configs _
