-- ===== src/Connections/Poll.antt =====
-- `PluginComm::poll` (src/plugincomm.cpp): reading from the plugins, handling what they ask, and
-- writing to them.
use dazeus_core.Base.{
  ℕ, Bool, true, false, ◌||◌, List, [], ◌∷◌, ◌++◌, ◌==◌, if◌then◌else◌, drop, take,
}
use dazeus_core.Text.{Str}
use dazeus_core.Run.{Run, done, ◌>>=◌}
use dazeus_core.Json.{Jansson, no_fields}
use dazeus_core.External.{Utils, Networks, NetworkCall}
use dazeus_core.Wire.{Frame, receive}
use dazeus_core.Socket.{SocketInfo}
use dazeus_core.Requests.{Database, Bot, Request}
use dazeus_core.Requests.Handle.{on_packet}

-- what `::poll` tells of a descriptor: it fails, or shows POLLERR or POLLHUP, or neither
pub data Check : Type 0 where
  check_failed broken fine : Check

-- how a row of `read` calls ends: with 0, with EWOULDBLOCK, or with another error
pub data ReadEnd : Type 0 where
  end_of_file nothing_more read_error : ReadEnd

-- how a row of `write` calls ends that leaves something to write
pub data WriteEnd : Type 0 where
  blocked write_error : WriteEnd

-- One descriptor during a `poll`: the chunks that `read` gives before it ends, and how many bytes
-- each `write` takes before one fails.
pub record Device : Type 0 where
  pub check : Check
  pub chunks : List Str
  pub read_end : ReadEnd
  pub accepted : List ℕ
  pub write_end : WriteEnd

-- the loop over `read`: what is appended, and whether the descriptor is closed
unfoldable pub read_all : List Str → Str
read_all [] = []
read_all (chunk ∷ chunks) = chunk ++ read_all chunks

unfoldable pub closes_after_read : ReadEnd → Bool
closes_after_read end_of_file = true
closes_after_read nothing_more = false
closes_after_read read_error = true

unfoldable pub closes_after_write : WriteEnd → Bool
closes_after_write blocked = false
closes_after_write write_error = true

-- what the loop over `write` has sent, what still waits, and whether the descriptor is closed
pub record Written : Type 0 where
  pub sent : Str
  pub left : Str
  pub closed : Bool

unfoldable pub write_all : WriteEnd → List ℕ → Str → Str → Written
unfolding closes_after_write
write_all end ns sent [] = record { sent = sent; left = []; closed = false }
write_all end [] sent (c ∷ buffer) = record {
  sent = sent;
  left = c ∷ buffer;
  closed = closes_after_write end;
}
write_all end (n ∷ ns) sent (c ∷ buffer) =
    write_all end ns (sent ++ take n (c ∷ buffer)) (drop n (c ∷ buffer))

-- One connection after its turn: `closed` is how often it was closed and put into `toRemove`.
pub record Turn (D : Type 0) : Type 0 where
  pub info : SocketInfo
  pub database : D
  pub calls : List NetworkCall
  pub sent : Str
  pub closed : Bool

-- `sockets_` after the loop, with the bytes that were written; `to_remove` holds the descriptors that
-- were closed
pub record Polled (D : Type 0) : Type 0 where
  pub sockets : List (ℕ × SocketInfo)
  pub database : D
  pub calls : List NetworkCall
  pub sent : List (ℕ × Str)
  pub to_remove : List ℕ

-- `sockets_.erase(fd)`
unfoldable pub erase_socket : ℕ → List (ℕ × SocketInfo) → List (ℕ × SocketInfo)
erase_socket fd [] = []
erase_socket fd ((k, info) ∷ rest) = if k == fd then rest else (k, info) ∷ erase_socket fd rest

unfoldable pub erase_all : List ℕ → List (ℕ × SocketInfo) → List (ℕ × SocketInfo)
unfolding erase_socket
erase_all [] sockets = sockets
erase_all (fd ∷ fds) sockets = erase_all fds (erase_socket fd sockets)

module _ {D : Type 0} (u : Utils) (j : Jansson) (nets : Networks) (db : Database D)
    (bot : Bot) where
  -- the loop over `write`, behind the packets
  unfoldable pub flush : Device → Bool → Frame × Request D → Turn D
  unfolding write_all
  flush dev ended (frame, r) =
      let out = write_all dev.write_end dev.accepted [] r.info.writebuffer in
      record {
        info = record r.info { frame = frame; writebuffer = out.left };
        database = r.database;
        calls = r.calls;
        sent = out.sent;
        closed = ended || out.closed;
      }

  -- reading, handling and writing; a descriptor that is at its end is still written to
  unfoldable pub serve : Device → SocketInfo → D → List NetworkCall → Run (Turn D)
  unfolding read_all closes_after_read flush
  serve dev info d calls =
      receive (on_packet u j nets db bot) info.frame
        (record { response = no_fields; info = info; database = d; calls = calls })
        (read_all dev.chunks)
      >>= λ q. done (flush dev (closes_after_read dev.read_end) q)

  -- a broken connection is closed and not served
  unfoldable pub poll_one : Device → Check → SocketInfo → D → List NetworkCall → Run (Turn D)
  unfolding serve
  poll_one dev fine info d calls = serve dev info d calls
  poll_one dev _ info d calls =
      done (record { info = info; database = d; calls = calls; sent = []; closed = true })

  -- the loop over `sockets_`
  unfoldable pub poll_all :
      (ℕ → Device) → List (ℕ × SocketInfo) → D → List NetworkCall → Run (Polled D)
  unfolding poll_one
  poll_all devices [] d calls =
      done (record { sockets = []; database = d; calls = calls; sent = []; to_remove = [] })
  poll_all devices ((fd, info) ∷ rest) d calls =
      poll_one (devices fd) (devices fd).check info d calls >>= λ t.
      poll_all devices rest t.database t.calls >>= λ after. done (record after {
        sockets = (fd, t.info) ∷ after.sockets;
        sent = (fd, t.sent) ∷ after.sent;
        to_remove = if t.closed then fd ∷ after.to_remove else after.to_remove;
      })

  unfoldable pub poll : (ℕ → Device) → List (ℕ × SocketInfo) → D → List NetworkCall → Run (Polled D)
  unfolding poll_all erase_all
  poll devices sockets d calls = poll_all devices sockets d calls >>= λ r.
      done (record r { sockets = erase_all r.to_remove r.sockets })
