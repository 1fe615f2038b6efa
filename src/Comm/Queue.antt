-- ===== src/Comm/Queue.antt =====
-- What the flush of the command queue means for the senders and for the plugins.
use dazeus_core.Base.{
  ℕ, ◌≡◌, refl, sym, ap, ◌∙◌, Bool, true, false, ◌||◌, List, [], ◌∷◌, ◌++◌, append_assoc,
  append-nil, arith, if◌then◌else◌, Bool-cases, inl, inr, All,
}
use dazeus_core.Text.{Str, str_eq, lit}
use dazeus_core.External.{Networks}
use dazeus_core.Json.{Jansson}
use dazeus_core.Wire.RoundTrip.{stream}
use dazeus_core.Socket
use dazeus_core.Socket.{SocketInfo, is_subscribed_to_command, command_might_need_whois, event_text}
use dazeus_core.Socket.Commands.{is_subscribed_to_command_blind}
use dazeus_core.Comm.{
  Command, Comm, whois_required, command_parameters, deliver, flush_command_queue,
}
use dazeus_core.Comm.Flush.{
  is_held, held, released, whois_calls, deliver_all, flush_command_queue_lem,
  whois_required-deliver,
}

module _ (j : Jansson) (nets : Networks) where
  -- whether a plugin is handed a command
  abbrev pub takes : Bool → SocketInfo → Command → Bool
  takes identified info cmd =
      is_subscribed_to_command info.commands cmd.command cmd.channel cmd.origin
        (nets.is_identified cmd.network cmd.origin || identified) cmd.network

  abbrev command_text : Command → Str
  command_text cmd = event_text j (lit "COMMAND") (command_parameters j nets cmd)

  -- the texts of the commands of `q` that a plugin is handed, in order
  abbrev pub outbox : Bool → SocketInfo → List Command → List Str
  outbox identified info [] = []
  outbox identified info (cmd ∷ q) =
      if takes identified info cmd
      then command_text cmd ∷ outbox identified info q
      else outbox identified info q

  abbrev pub send_all : (SocketInfo → List Str) → List (ℕ × SocketInfo) → List (ℕ × SocketInfo)
  send_all texts [] = []
  send_all texts ((fd, info) ∷ ss) =
      (fd, record info { writebuffer = info.writebuffer ++ stream (texts info) })
      ∷ send_all texts ss

  deliver-send_all :
      (identified : Bool) (cmd : Command) (ss : List (ℕ × SocketInfo))
      → deliver j nets identified cmd ss ≡ send_all (λ info. outbox identified info (cmd ∷ [])) ss
  unfolding deliver Socket.dispatch stream
  deliver-send_all identified cmd [] = refl
  deliver-send_all identified cmd ((fd, info) ∷ ss) =
      elim (Bool-cases (takes identified info cmd)) [
        | inl yes_it ↦ rw (yes_it, deliver-send_all identified cmd ss, append-nil) refl
        | inr no_it ↦ rw (no_it, deliver-send_all identified cmd ss, append-nil) refl
      ]

  outbox-writebuffer :
      (identified : Bool) (info : SocketInfo) (w : Str) (q : List Command)
      → outbox identified (record info { writebuffer = w }) q ≡ outbox identified info q
  outbox-writebuffer identified info w [] = refl
  outbox-writebuffer identified info w (cmd ∷ q) = rw (outbox-writebuffer identified info w q)

  outbox-cons :
      (identified : Bool) (info : SocketInfo) (cmd : Command) (q : List Command)
      → outbox identified info (cmd ∷ []) ++ outbox identified info q
        ≡ outbox identified info (cmd ∷ q)
  outbox-cons identified info cmd q = elim (Bool-cases (takes identified info cmd)) [
    | inl yes_it ↦ rw yes_it
    | inr no_it ↦ rw no_it
  ]

  stream-append : (a b : List Str) → stream (a ++ b) ≡ stream a ++ stream b
  unfolding stream
  stream-append [] b = refl
  stream-append (x ∷ a) b = rw (stream-append a b, append_assoc)

  send_all-nil : (ss : List (ℕ × SocketInfo)) → send_all (λ info. []) ss ≡ ss
  unfolding stream
  send_all-nil [] = refl
  send_all-nil ((fd, info) ∷ ss) = rw (append-nil, send_all-nil ss)

  whois_required-mark :
      (ss : List (ℕ × SocketInfo)) (c : Command) (b : Bool)
      → whois_required j nets ss (record c { whois_sent = b }) ≡ whois_required j nets ss c
  unfolding whois_required
  whois_required-mark [] c b = refl
  whois_required-mark ((fd, info) ∷ ss) c b = rw (whois_required-mark ss c b)

  module _ (nick : Str) (identified : Bool) where
    send_all-cons :
        (cmd : Command) (q : List Command) (ss : List (ℕ × SocketInfo))
        → send_all
            (λ info. outbox identified info q)
            (send_all (λ info. outbox identified info (cmd ∷ [])) ss)
          ≡ send_all (λ info. outbox identified info (cmd ∷ q)) ss
    send_all-cons cmd q [] = refl
    send_all-cons cmd q ((fd, info) ∷ ss) =
        rw
          (
            outbox-writebuffer identified info _ q,
            ← outbox-cons identified info cmd q,
            stream-append,
          )
          (rw (append_assoc info.writebuffer, send_all-cons cmd q ss))

    -- A flush appends to the write buffer of each plugin exactly the framed texts of the released
    -- commands that it takes, in the order of the queue.
    pub deliver_all-send_all :
        (q : List Command) (ss : List (ℕ × SocketInfo))
        → deliver_all j nets nick identified q ss ≡ send_all (λ info. outbox identified info q) ss
    deliver_all-send_all [] ss = sym (send_all-nil ss)
    deliver_all-send_all (cmd ∷ q) ss = rw (deliver-send_all identified cmd ss) (
        deliver_all-send_all q (send_all (λ info. outbox identified info (cmd ∷ [])) ss)
        ∙ send_all-cons cmd q ss)

    SameNeeds-deliver_all :
        (q : List Command) (ss : List (ℕ × SocketInfo)) (cmd : Command)
        → whois_required j nets (deliver_all j nets nick identified q ss) cmd
          ≡ whois_required j nets ss cmd
    SameNeeds-deliver_all [] ss cmd = refl
    SameNeeds-deliver_all (c ∷ q) ss cmd =
        SameNeeds-deliver_all q (deliver j nets identified c ss) cmd
        ∙ whois_required-deliver j nets identified cmd c ss

    -- A second flush, of what the first left, with the same answer
    settled :
        (ss ts : List (ℕ × SocketInfo))
        → ((cmd : Command) → whois_required j nets ts cmd ≡ whois_required j nets ss cmd)
        → (q : List Command)
        → (released j nets nick identified ts (held j nets nick identified ss q) ≡ [])
          × (held j nets nick identified ts (held j nets nick identified ss q)
              ≡ held j nets nick identified ss q)
          × (whois_calls j nets nick identified ts (held j nets nick identified ss q) ≡ [])
    settled ss ts same [] = (refl, refl, refl)
    settled ss ts same (cmd ∷ q) = elim (Bool-cases (is_held j nets nick identified ss cmd)) [
      | inr free ↦ rw free (settled ss ts same q)
      | inl waits ↦
          let later = settled ss ts same q in
          rw
            (waits, same (record cmd { whois_sent = true }), whois_required-mark ss cmd true, waits)
            (later.0, ap (λ l. record cmd { whois_sent = true } ∷ l) later.1, later.2)
    ]

    -- A second flush with the same answer changes nothing: no command is handed out twice, and no
    -- whois is sent twice.
    pub flush_command_queue_idem :
        (s : Comm)
        → flush_command_queue j nets nick identified (flush_command_queue j nets nick identified s)
          ≡ flush_command_queue j nets nick identified s
    flush_command_queue_idem s =
        let ts =
          deliver_all j nets nick identified
            (released j nets nick identified s.sockets s.command_queue) s.sockets in
        let calm =
          settled s.sockets ts
            (SameNeeds-deliver_all (released j nets nick identified s.sockets s.command_queue)
              s.sockets)
            s.command_queue in
        rw (flush_command_queue_lem j nets nick identified s) (
          flush_command_queue_lem j nets nick identified (record {
            sockets = ts;
            command_queue = held j nets nick identified s.sockets s.command_queue;
            calls = s.calls ++ whois_calls j nets nick identified s.sockets s.command_queue;
          })
          ∙ rw (calm.0, calm.1, calm.2, append-nil))

  takes_blind :
      (a b : Bool) (ss : List (ℕ × SocketInfo)) (cmd : Command)
      → whois_required j nets ss cmd ≡ false
      → All (λ p. takes a p.1 cmd ≡ takes b p.1 cmd) ss
  unfolding whois_required
  takes_blind a b [] cmd h = tt
  takes_blind a b ((fd, info) ∷ ss) cmd h = (
    ground (
      arith,
      is_subscribed_to_command_blind cmd.command cmd.channel cmd.origin cmd.network info.commands
          (nets.is_identified cmd.network cmd.origin || a)
          (nets.is_identified cmd.network cmd.origin || b),
    ),
    takes_blind a b ss cmd (ground arith),
  )

  -- The answer about `nick` does not change which plugins are handed the command of another sender
  -- that the same flush releases.
  pub released_blind :
      (nick : Str) (identified : Bool) (ss : List (ℕ × SocketInfo)) (cmd : Command)
      → str_eq nick cmd.origin ≡ false
      → is_held j nets nick identified ss cmd ≡ false
      → All (λ p. takes identified p.1 cmd ≡ takes false p.1 cmd) ss
  released_blind nick identified ss cmd other free =
      takes_blind identified false ss cmd (ground arith)
