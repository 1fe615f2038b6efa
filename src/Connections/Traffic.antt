-- ===== src/Connections/Traffic.antt =====
-- What a plugin sends and is sent during one `PluginComm::poll` (src/plugincomm.cpp).
use dazeus_core.Base.{
  ℕ, suc, ◌<◌, ◌^◌, ◌≡◌, refl, sym, ap, ◌∙◌, List, [], ◌∷◌, ◌++◌, append_assoc, append-nil, Bool,
  All, length, length-append, take, drop, zero, arith,
}
use dazeus_core.Text.{Str, lit}
use dazeus_core.Text.Decimal.{decimal}
use dazeus_core.Run.{EndsWith, returned, EndsWith-bind}
use dazeus_core.Json.{Jansson, no_fields}
use dazeus_core.External.{Utils, Networks, NetworkCall}
use dazeus_core.Wire.{Frame, receive, process, encode}
use dazeus_core.Wire.RoundTrip.{
  stream, IsQuiet, IsPacket, leftover, process-stream, newline-IsQuiet,
}
use dazeus_core.Socket.{SocketInfo}
use dazeus_core.Requests.{Database, Bot, Request}
use dazeus_core.Requests.Handle.{on_packet}
use dazeus_core.Requests.Replies.{Exchange, silence, BrokenOff, AnsweredAll, handle_all-Answered}
use dazeus_core.Connections.Poll.{
  fine, Device, WriteEnd, Turn, read_all, closes_after_read, write_all, flush, serve, poll_one,
}

take-append-drop : (n : ℕ) (s : Str) → take n s ++ drop n s ≡ s
take-append-drop zero s = refl
take-append-drop (suc n) [] = refl
take-append-drop (suc n) (c ∷ s) = ap (λ r. c ∷ r) (take-append-drop n s)

-- Nothing is lost or sent twice between the bytes that are sent and the ones that wait.
write_all-append :
    (end : WriteEnd) (ns : List ℕ) (sent buffer : Str)
    → (write_all end ns sent buffer).sent ++ (write_all end ns sent buffer).left ≡ sent ++ buffer
unfolding write_all
write_all-append end [] sent [] = refl
write_all-append end (n ∷ ns) sent [] = refl
write_all-append end [] sent (c ∷ buffer) = refl
write_all-append end (n ∷ ns) sent (c ∷ buffer) =
    write_all-append end ns (sent ++ take n (c ∷ buffer)) (drop n (c ∷ buffer))
    ∙ append_assoc sent (take n (c ∷ buffer)) (drop n (c ∷ buffer))
    ∙ ap (λ r. sent ++ r) (take-append-drop n (c ∷ buffer))

-- the reader waits for a packet
abbrev pub AtRest : Frame → Type 0
AtRest f = (f.waiting_size ≡ 0) × All IsQuiet f.readahead

leftover-IsQuiet : (pre : Str) (ms : List Str) → All IsQuiet pre → All IsQuiet (leftover pre ms)
leftover-IsQuiet pre [] h = h
leftover-IsQuiet pre (m ∷ ms) h = leftover-IsQuiet (lit "\n") ms newline-IsQuiet

stream-nonempty : (m : Str) (ms : List Str) → ¬ (stream (m ∷ ms) ≡ [])
unfolding stream encode lit
stream-nonempty m ms e = omega (
  arith,
  ap (length {A = ℕ}) e,
  length-append (encode m) (stream ms),
  length-append (decimal (length m)) (m ++ lit "\n"),
  length-append m (lit "\n"),
)

module _ {D : Type 0} (u : Utils) (j : Jansson) (nets : Networks) (db : Database D)
    (bot : Bot) where
  -- the bot as `poll` finds it for one connection
  abbrev pub request : SocketInfo → D → List NetworkCall → Request D
  request info d calls = record { response = no_fields; info = info; database = d; calls = calls }

  -- The packets were answered; what was sent and what waits now is what waited, and the framed
  -- answers; the reader waits for a packet again.
  abbrev pub Serves : Request D → List Str → Turn D → Type 0
  Serves r ms t =
      (texts : List Str) × (s : Request D) × Exchange u j nets db bot r ms texts s
      × (t.sent ++ t.info.writebuffer ≡ r.info.writebuffer ++ stream texts)
      × (t.database ≡ s.database)
      × (t.calls ≡ s.calls)
      × AtRest t.info.frame

  flush-Serves :
      (dev : Device) (ended : Bool) (r s : Request D) (ms : List Str) (frame : Frame)
      → AnsweredAll u j nets db bot r ms s
      → AtRest frame
      → Serves r ms (flush u j nets db bot dev ended (frame, s))
  unfolding flush
  flush-Serves dev ended r s ms frame (texts, x, e) rest = (
    texts,
    s,
    x,
    write_all-append dev.write_end dev.accepted [] s.info.writebuffer ∙ e,
    refl,
    refl,
    rest,
  )

  -- after the packets were read
  abbrev Received : Request D → List Str → Frame × Request D → Type 0
  Received r ms q = AnsweredAll u j nets db bot r ms q.1 × AtRest q.0

  process-Received :
      (pre : Str) (ms : List Str) (r : Request D)
      → All IsQuiet pre
      → All IsPacket ms
      → length (stream ms) < 2 ^ 31
      → EndsWith (Received r ms) (BrokenOff u j nets db bot r ms) (
          process
            (on_packet u j nets db bot)
            (record { waiting_size = 0; readahead = pre ++ stream ms })
            r)
  process-Received pre ms r quiet packets small =
      rw (process-stream (on_packet u j nets db bot) pre ms r quiet packets small) (
        EndsWith-bind (handle_all-Answered u j nets db bot r ms)
          (λ t a. returned (a, (refl, leftover-IsQuiet pre ms quiet))))

  receive-Received :
      (frame : Frame) (pre : Str) (ms : List Str) (r : Request D) (bytes : Str)
      → frame ≡ record { waiting_size = 0; readahead = pre }
      → bytes ≡ stream ms
      → All IsQuiet pre
      → All IsPacket ms
      → length (stream ms) < 2 ^ 31
      → EndsWith
          (Received r ms)
          (BrokenOff u j nets db bot r ms)
          (receive (on_packet u j nets db bot) frame r bytes)
  unfolding receive
  receive-Received frame pre [] r [] at e quiet packets small = rw at (
      returned (([], silence, unfold stream in sym (append-nil r.info.writebuffer)), (refl, quiet)))
  receive-Received frame pre (m ∷ ms) r [] at e quiet packets small =
      absurd (stream-nonempty m ms (sym e))
  receive-Received frame pre ms r (c ∷ bytes) at e quiet packets small =
      rw (at, e) (process-Received pre ms r quiet packets small)

  -- If a plugin's connection is not broken, the reader waits for a packet behind bytes that are
  -- neither digits nor braces, and the bytes that are read, in whatever chunks, are a stream of
  -- framed packets, then each packet is answered in its turn, by what `handle` makes of it in the
  -- state that the packets before it left; what was sent to the plugin, followed by what still waits,
  -- is what waited before, followed by the framed answers in the order of the packets; and the reader
  -- waits for a packet again. Or the process dies of a packet, behind the packets that were answered.
  pub poll_one_lem :
      (dev : Device) (info : SocketInfo) (d : D) (calls : List NetworkCall) (pre : Str)
      (ms : List Str)
      → info.frame ≡ record { waiting_size = 0; readahead = pre }
      → read_all dev.chunks ≡ stream ms
      → All IsQuiet pre
      → All IsPacket ms
      → length (stream ms) < 2 ^ 31
      → EndsWith
          (Serves (request info d calls) ms)
          (BrokenOff u j nets db bot (request info d calls) ms)
          (poll_one u j nets db bot dev fine info d calls)
  unfolding poll_one serve
  poll_one_lem dev info d calls pre ms frame bytes quiet packets small =
      EndsWith-bind
        (receive-Received info.frame pre ms (request info d calls) (read_all dev.chunks) frame bytes
          quiet packets small)
        (λ q a. returned (
          flush-Serves dev (closes_after_read dev.read_end) (request info d calls) q.1 ms q.0 a.0
            a.1))
