-- ===== src/Connections/Removal.antt =====
-- Which connections `PluginComm::poll` (src/plugincomm.cpp) keeps.
use dazeus_core.Base.{
  ℕ, take, drop, ◌++◌, ◌⊎◌, ◌≡◌, refl, ◌∙◌, List, [], ◌∷◌, Bool, true, false, not, ◌&&◌, ◌||◌, ◌==◌,
  arith, if◌then◌else◌, Bool-cases, ==_iff, inl, inr,
}
use dazeus_core.Run.{
  EndsWith-Yields, Yields, Yields-bind, Stops-Yields, Stops-Ends, Ends-Stops, Ends,
}
use dazeus_core.Text.{Str}
use dazeus_core.Wire.{Frame}
use dazeus_core.Wire.Chunks.{receive-Ends}
use dazeus_core.Requests.Handle.{on_packet}
use dazeus_core.Requests.Replies.{Replies, on_packet-Replies}
use dazeus_core.Json.{Jansson}
use dazeus_core.External.{Utils, Networks, NetworkCall}
use dazeus_core.Socket.{SocketInfo}
use dazeus_core.Requests.{Database, Bot, Request}
use dazeus_core.Connections.Poll.{
  Check, check_failed, broken, fine, Device, WriteEnd, blocked, write_error, Turn, Polled, read_all,
  closes_after_read, write_all, flush, serve, poll_one, poll_all, poll, erase_socket, erase_all,
}

-- `sockets_.find(fd) != sockets_.end()`
abbrev pub has : ℕ → List (ℕ × SocketInfo) → Bool
has fd [] = false
has fd ((k, info) ∷ rest) = k == fd || has fd rest

abbrev pub among : ℕ → List ℕ → Bool
among fd [] = false
among fd (k ∷ rest) = k == fd || among fd rest

-- each descriptor stands once in the map
abbrev pub AreDistinct : List (ℕ × SocketInfo) → Type 0
AreDistinct [] = Unit
AreDistinct ((k, info) ∷ rest) = (has k rest ≡ false) × AreDistinct rest

-- a descriptor that has to be closed, whatever can be written to it
abbrev pub is_lost : Device → Bool
is_lost dev = elim dev.check [ fine ↦ closes_after_read dev.read_end | _ ↦ true ]

erase_socket-has :
    (fd k : ℕ) (s : List (ℕ × SocketInfo))
    → AreDistinct s
    → has k (erase_socket fd s) ≡ (has k s && not (fd == k))
unfolding erase_socket
erase_socket-has fd k [] d = refl
erase_socket-has fd k ((i, info) ∷ s) d = ground (arith, erase_socket-has fd k s d.1)

erase_socket-AreDistinct :
    (fd : ℕ) (s : List (ℕ × SocketInfo)) → AreDistinct s → AreDistinct (erase_socket fd s)
unfolding erase_socket
erase_socket-AreDistinct fd [] d = tt
erase_socket-AreDistinct fd ((i, info) ∷ s) d = elim (Bool-cases (i == fd)) [
  | inl same ↦ rw same d.1
  | inr other ↦
      rw other (rw (erase_socket-has fd i s d.1, d.0) refl, erase_socket-AreDistinct fd s d.1)
]

erase_all-AreDistinct :
    (fds : List ℕ) (s : List (ℕ × SocketInfo)) → AreDistinct s → AreDistinct (erase_all fds s)
unfolding erase_all
erase_all-AreDistinct [] s d = d
erase_all-AreDistinct (fd ∷ fds) s d =
    erase_all-AreDistinct fds (erase_socket fd s) (erase_socket-AreDistinct fd s d)

erase_all-has :
    (fds : List ℕ) (k : ℕ) (s : List (ℕ × SocketInfo))
    → AreDistinct s
    → has k (erase_all fds s) ≡ (has k s && not (among k fds))
unfolding erase_all
erase_all-has [] k s d = ground arith
erase_all-has (fd ∷ fds) k s d =
    erase_all-has fds k (erase_socket fd s) (erase_socket-AreDistinct fd s d)
    ∙ rw (erase_socket-has fd k s d) (ground arith)

among-if :
    (k fd : ℕ) (closed : Bool) (l : List ℕ)
    → among k (if closed then fd ∷ l else l) ≡ (closed && (fd == k) || among k l)
among-if k fd true l = refl
among-if k fd false l = refl

-- a connection that is lost stands among the ones to remove, if its turn closes it
lost_among :
    (devices : ℕ → Device) (fd k : ℕ) (closed : Bool) (l : List ℕ) (later : Bool)
    → (is_lost (devices fd) ≡ true → closed ≡ true)
    → is_lost (devices k) ≡ true
    → (fd == k || later) ≡ true
    → (later ≡ true → among k l ≡ true)
    → among k (if closed then fd ∷ l else l) ≡ true
lost_among devices fd k closed l later c lost here rest =
    among-if k fd closed l ∙ (elim (Bool-cases (fd == k)) [
      | inl same ↦ rw (same, c (rw ((==_iff fd k).0 same) lost)) refl
      | inr other ↦ ground (arith, other, here, rest)
    ])

among_lost :
    (devices : ℕ → Device) (fd k : ℕ) (closed : Bool) (l : List ℕ)
    → (closed ≡ true → (is_lost (devices fd) ≡ true) ⊎ ((devices fd).write_end ≡ write_error))
    → (among k l ≡ true → (is_lost (devices k) ≡ true) ⊎ ((devices k).write_end ≡ write_error))
    → among k (if closed then fd ∷ l else l) ≡ true
    → (is_lost (devices k) ≡ true) ⊎ ((devices k).write_end ≡ write_error)
among_lost devices fd k false l c rest here = rest here
among_lost devices fd k true l c rest here = elim (Bool-cases (fd == k)) [
  | inl same ↦ rw (← (==_iff fd k).0 same) (c refl)
  | inr other ↦ rest (ground (arith, other, here))
]

module _ {D : Type 0} (u : Utils) (j : Jansson) (nets : Networks) (db : Database D)
    (bot : Bot) where
  -- when a connection is closed
  abbrev Closes : Device → Turn D → Type 0
  Closes dev t =
      (is_lost dev ≡ true → t.closed ≡ true)
      × (t.closed ≡ true → (is_lost dev ≡ true) ⊎ (dev.write_end ≡ write_error))

  write_all-closed :
      (end : WriteEnd) (ns : List ℕ) (sent buffer : Str)
      → (write_all end ns sent buffer).closed ≡ true
      → end ≡ write_error
  unfolding write_all
  write_all-closed blocked [] sent (c ∷ buffer) h = absurd cc
  write_all-closed write_error [] sent (c ∷ buffer) h = refl
  write_all-closed end [] sent [] h = absurd cc
  write_all-closed end (n ∷ ns) sent [] h = absurd cc
  write_all-closed end (n ∷ ns) sent (c ∷ buffer) h =
      write_all-closed end ns (sent ++ take n (c ∷ buffer)) (drop n (c ∷ buffer)) h

  flush-closed :
      (dev : Device) (ended : Bool) (q : Frame × Request D)
      → (ended ≡ true → (flush u j nets db bot dev ended q).closed ≡ true)
        × ((flush u j nets db bot dev ended q).closed ≡ true
            → (ended ≡ true) ⊎ (dev.write_end ≡ write_error))
  unfolding flush
  flush-closed dev true (frame, r) = ((λ _. refl), (λ _. inl refl))
  flush-closed dev false (frame, r) = (
    (λ e. absurd cc),
    (λ e. inr (write_all-closed dev.write_end dev.accepted [] r.info.writebuffer e)),
  )

  on_packet-Ends : (r : Request D) (x : Str) → Ends (on_packet u j nets db bot r x)
  on_packet-Ends r x = Stops-Ends _ (
      Stops-Yields (λ s. (text : Str) × Replies u j nets db bot r x s text) _
        (EndsWith-Yields (on_packet-Replies u j nets db bot r x)))

  poll_one-Closes :
      (dev : Device) (c : Check) (info : SocketInfo) (d : D) (calls : List NetworkCall)
      → dev.check ≡ c
      → Yields (Closes dev) (poll_one u j nets db bot dev c info d calls)
  unfolding poll_one serve
  poll_one-Closes dev fine info d calls e =
      Yields-bind (λ q. Unit {0}) (Closes dev) _ _
        (Ends-Stops _ (
          receive-Ends (on_packet u j nets db bot) (on_packet-Ends) info.frame _
            (read_all dev.chunks)))
        (λ q _. rw e (flush-closed dev (closes_after_read dev.read_end) q))
  poll_one-Closes dev check_failed info d calls e = rw e ((λ _. refl), (λ _. inl refl))
  poll_one-Closes dev broken info d calls e = rw e ((λ _. refl), (λ _. inl refl))

  -- one loop over the connections
  record PollsAll (devices : ℕ → Device) (s : List (ℕ × SocketInfo)) (r : Polled D) : Type 0 where
    keys_kept : (k : ℕ) → has k r.sockets ≡ has k s
    distinct_kept : AreDistinct s → AreDistinct r.sockets
    lost_closed : (k : ℕ) → has k s ≡ true → is_lost (devices k) ≡ true → among k r.to_remove ≡ true
    closed_lost :
        (k : ℕ)
        → among k r.to_remove ≡ true
        → (is_lost (devices k) ≡ true) ⊎ ((devices k).write_end ≡ write_error)

  poll_all_lem :
      (devices : ℕ → Device) (s : List (ℕ × SocketInfo)) (d : D) (calls : List NetworkCall)
      → Yields (PollsAll devices s) (poll_all u j nets db bot devices s d calls)
  unfolding poll_all
  poll_all_lem devices [] d calls = record {
    keys_kept = λ k. refl;
    distinct_kept = λ h. h;
    lost_closed = λ k h. absurd cc;
    closed_lost = λ k h. absurd cc;
  }
  poll_all_lem devices ((fd, info) ∷ s) d calls =
      Yields-bind (Closes (devices fd)) (PollsAll devices ((fd, info) ∷ s)) _ _
        (poll_one-Closes (devices fd) (devices fd).check info d calls refl)
        (λ t c.
          Yields-bind (PollsAll devices s) (PollsAll devices ((fd, info) ∷ s)) _ _
            (poll_all_lem devices s t.database t.calls)
            (λ r p. record {
              keys_kept = λ k. rw (p.keys_kept k) refl;
              distinct_kept = λ h. (p.keys_kept fd ∙ h.0, p.distinct_kept h.1);
              lost_closed = λ k h l.
                  lost_among devices fd k t.closed r.to_remove (has k s) c.0 l h
                    (λ m. p.lost_closed k m l);
              closed_lost =
                  λ k h. among_lost devices fd k t.closed r.to_remove c.1 (p.closed_lost k) h;
            }))

  -- what `poll` does to the connections
  pub record Polls (devices : ℕ → Device) (s : List (ℕ × SocketInfo)) (r : Polled D) : Type 0 where
    pub distinct : AreDistinct r.sockets
    pub kept : (k : ℕ) → has k r.sockets ≡ (has k s && not (among k r.to_remove))
    pub lost_closed :
        (k : ℕ) → has k s ≡ true → is_lost (devices k) ≡ true → among k r.to_remove ≡ true
    pub closed_lost :
        (k : ℕ)
        → among k r.to_remove ≡ true
        → (is_lost (devices k) ≡ true) ⊎ ((devices k).write_end ≡ write_error)

  -- If each descriptor stands once in `sockets_`, `poll` ends, and if the process lives,
  -- the descriptors stay distinct; a connection is in
  -- `sockets_` after it if and only if it was before and was not closed; a broken connection, and one
  -- whose reading ended with an end of file or an error, is closed; and no other is, unless a `write`
  -- failed.
  pub poll_lem :
      (devices : ℕ → Device) (s : List (ℕ × SocketInfo)) (d : D) (calls : List NetworkCall)
      → AreDistinct s
      → Yields (Polls devices s) (poll u j nets db bot devices s d calls)
  unfolding poll
  poll_lem devices s d calls h =
      Yields-bind (PollsAll devices s) (Polls devices s) _ _ (poll_all_lem devices s d calls)
        (λ r p. record {
          distinct = erase_all-AreDistinct r.to_remove r.sockets (p.distinct_kept h);
          kept = λ k.
              erase_all-has r.to_remove k r.sockets (p.distinct_kept h) ∙ rw (p.keys_kept k) refl;
          lost_closed = p.lost_closed;
          closed_lost = p.closed_lost;
        })
