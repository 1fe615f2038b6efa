-- ===== src/Connections/Watching.antt =====
-- What `PluginComm::run` (src/plugincomm.cpp) asks `select` for.
use dazeus_core.Base.{
  ℕ, ◌≤◌, ◌<◌, ◌≡◌, refl, sym, ap, ◌∙◌, Bool, true, false, List, [], ◌∷◌, ◌++◌, append_assoc,
  append-nil, arith, All, All-append, if◌then◌else◌, is_empty, leb, leb→le,
}
use dazeus_core.Run.{Gives, gives, Gives-bind, Gives-mono, Gives-if}
use dazeus_core.Socket.{SocketInfo}
use dazeus_core.Connections.Select.{
  fd_setsize, Watched, Connections, raise, watch_reading, watch_servers, watch_sockets,
  watch_networks, watch_all,
}

abbrev pub descriptors : List (ℕ × SocketInfo) → List ℕ
descriptors [] = []
descriptors ((fd, info) ∷ rest) = fd ∷ descriptors rest

-- the plugins for which something waits to be written
abbrev pub waiting : List (ℕ × SocketInfo) → List ℕ
waiting [] = []
waiting ((fd, info) ∷ rest) = if is_empty info.writebuffer then waiting rest else fd ∷ waiting rest

abbrev pub all_reading : List Watched → List ℕ
all_reading [] = []
all_reading (w ∷ ws) = w.reading ++ all_reading ws

abbrev pub all_writing : List Watched → List ℕ
all_writing [] = []
all_writing (w ∷ ws) = w.writing ++ all_writing ws

abbrev pub Below : ℕ → List ℕ → Type 0
Below h fds = All (λ fd. fd ≤ h) fds

abbrev pub AreSmall : List ℕ → Type 0
AreSmall fds = All (λ fd. fd < fd_setsize) fds

-- a network names a highest descriptor that is one
abbrev pub IsCovered : Watched → Type 0
IsCovered w = Below w.highest w.reading × Below w.highest w.writing

Below-mono : (h k : ℕ) (fds : List ℕ) → h ≤ k → Below h fds → Below k fds
Below-mono h k [] l b = tt
Below-mono h k (fd ∷ fds) l b = (omega arith, Below-mono h k fds l b.1)

-- what a part of the set-up adds
record Grows (w : Watched) (rs ws : List ℕ) (v : Watched) : Type 0 where
  reads : v.reading ≡ w.reading ++ rs
  writes : v.writing ≡ w.writing ++ ws
  higher : w.highest ≤ v.highest
  reads_below : Below v.highest rs
  writes_below : Below v.highest ws

Grows-self : (w : Watched) → Grows w [] [] w
Grows-self w = record {
  reads = sym (append-nil w.reading);
  writes = sym (append-nil w.writing);
  higher = omega arith;
  reads_below = tt;
  writes_below = tt;
}

Grows-trans :
    (w v x : Watched) (rs ws rs' ws' : List ℕ)
    → Grows w rs ws v
    → Grows v rs' ws' x
    → Grows w (rs ++ rs') (ws ++ ws') x
Grows-trans w v x rs ws rs' ws' g h = record {
  reads = h.reads ∙ ap (λ l. l ++ rs') g.reads ∙ append_assoc w.reading rs rs';
  writes = h.writes ∙ ap (λ l. l ++ ws') g.writes ∙ append_assoc w.writing ws ws';
  higher = omega (arith, g.higher, h.higher);
  reads_below =
      All-append _ rs rs' (Below-mono v.highest x.highest rs h.higher g.reads_below) h.reads_below;
  writes_below =
      All-append _ ws ws' (Below-mono v.highest x.highest ws h.higher g.writes_below)
        h.writes_below;
}

raise_le : (h fd : ℕ) → (h ≤ raise h fd) × (fd ≤ raise h fd)
unfolding raise
raise_le h fd = ground arith

watch_reading-Grows :
    (fd : ℕ) (w : Watched) → fd < fd_setsize → Gives (Grows w (fd ∷ []) []) (watch_reading fd w)
unfolding watch_reading
watch_reading-Grows fd w small =
    Gives-if (leb fd_setsize fd) (λ large. absurd (omega (arith, leb→le fd_setsize fd large)))
      (λ _. gives (record {
        reads = refl;
        writes = sym (append-nil w.writing);
        higher = (raise_le w.highest fd).0;
        reads_below = ((raise_le w.highest fd).1, tt);
        writes_below = tt;
      }))

watch_servers-Grows :
    (fds : List ℕ) (w : Watched) → AreSmall fds → Gives (Grows w fds []) (watch_servers fds w)
unfolding watch_servers
watch_servers-Grows [] w small = gives (Grows-self w)
watch_servers-Grows (fd ∷ fds) w small = Gives-bind (watch_reading-Grows fd w small.0) λ v g.
    Gives-mono (watch_servers-Grows fds v small.1)
      (λ x h. Grows-trans w v x (fd ∷ []) [] fds [] g h)

-- behind one plugin, for which something waits or nothing does
after_socket-Grows :
    (fd : ℕ) (s : List (ℕ × SocketInfo)) (w v : Watched) (idle : Bool)
    → Grows w (fd ∷ []) [] v
    → ((x : Watched) → Gives (Grows x (descriptors s) (waiting s)) (watch_sockets s x))
    → Gives
        (Grows w (fd ∷ descriptors s) (if idle then waiting s else fd ∷ waiting s))
        (watch_sockets s (if idle then v else record v { writing = v.writing ++ fd ∷ [] }))
after_socket-Grows fd s w v true g rest =
    Gives-mono (rest v) (λ x h. Grows-trans w v x (fd ∷ []) [] (descriptors s) (waiting s) g h)
after_socket-Grows fd s w v false g rest =
    let v' : Watched = record v { writing = v.writing ++ fd ∷ [] } in
    let g' : Grows w (fd ∷ []) (fd ∷ []) v' = record {
      reads = g.reads;
      writes = ap (λ l. l ++ fd ∷ []) (g.writes ∙ append-nil w.writing);
      higher = g.higher;
      reads_below = g.reads_below;
      writes_below = (g.reads_below.0, tt);
    } in
    Gives-mono (rest v')
      (λ x h. Grows-trans w v' x (fd ∷ []) (fd ∷ []) (descriptors s) (waiting s) g' h)

watch_sockets-Grows :
    (s : List (ℕ × SocketInfo)) (w : Watched)
    → AreSmall (descriptors s)
    → Gives (Grows w (descriptors s) (waiting s)) (watch_sockets s w)
unfolding watch_sockets
watch_sockets-Grows [] w small = gives (Grows-self w)
watch_sockets-Grows ((fd, info) ∷ s) w small = Gives-bind (watch_reading-Grows fd w small.0) λ v g.
    after_socket-Grows fd s w v (is_empty info.writebuffer) g (λ x. watch_sockets-Grows s x small.1)

watch_networks-Grows :
    (irc : List Watched) (w : Watched)
    → All IsCovered irc
    → Grows w (all_reading irc) (all_writing irc) (watch_networks irc w)
unfolding watch_networks
watch_networks-Grows [] w c = Grows-self w
watch_networks-Grows (i ∷ irc) w c =
    let v : Watched = record {
      highest = raise w.highest i.highest;
      reading = w.reading ++ i.reading;
      writing = w.writing ++ i.writing;
    } in
    let g : Grows w i.reading i.writing v = record {
      reads = refl;
      writes = refl;
      higher = (raise_le w.highest i.highest).0;
      reads_below = Below-mono i.highest _ i.reading (raise_le w.highest i.highest).1 c.0.0;
      writes_below = Below-mono i.highest _ i.writing (raise_le w.highest i.highest).1 c.0.1;
    } in
    Grows-trans w v _ i.reading i.writing (all_reading irc) (all_writing irc) g
      (watch_networks-Grows irc v c.1)

module _ {D : Type 0} where
  -- what `select` is asked for
  pub record Watches (irc : List Watched) (c : Connections D) (w : Watched) : Type 0 where
    pub reads :
        w.reading
        ≡ c.tcp_servers ++ (c.local_servers ++ (descriptors c.comm.sockets ++ all_reading irc))
    pub writes : w.writing ≡ waiting c.comm.sockets ++ all_writing irc
    pub covered : IsCovered w

  -- If every server and connection has a descriptor below FD_SETSIZE, and each network names a
  -- highest descriptor that is one, then `select` is asked to read from exactly the servers, the
  -- plugins and the networks' descriptors, and to write to exactly the plugins for which something
  -- waits and the networks' descriptors; and the highest descriptor that it is told is not below any
  -- of them.
  pub watch_all_lem :
      (irc : List Watched) (c : Connections D)
      → AreSmall c.tcp_servers
      → AreSmall c.local_servers
      → AreSmall (descriptors c.comm.sockets)
      → All IsCovered irc
      → Gives (Watches irc c) (watch_all irc c)
  unfolding watch_all
  watch_all_lem irc c tcp local plugins covered =
      Gives-bind (watch_servers-Grows c.tcp_servers _ tcp) λ w1 g1.
        Gives-bind (watch_servers-Grows c.local_servers w1 local) λ w2 g2.
          Gives-bind (watch_sockets-Grows c.comm.sockets w2 plugins) λ w3 g3.
            let g = Grows-trans _ w1 _ c.tcp_servers [] _ _ g1 (
              Grows-trans w1 w2 _ c.local_servers [] _ _ g2 (
                Grows-trans w2 w3 _ (descriptors c.comm.sockets) (waiting c.comm.sockets) _ _ g3
                  (watch_networks-Grows irc w3 covered))) in
            gives (record {
              reads = g.reads;
              writes = g.writes;
              covered = (rw g.reads g.reads_below, rw g.writes g.writes_below);
            })
