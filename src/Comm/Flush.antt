-- ===== src/Comm/Flush.antt =====
-- What `flushCommandQueue` does with the whole queue.
use dazeus_core.Base.{
  ℕ, ◌≡◌, refl, ◌∙◌, Bool, true, not, ◌&&◌, List, [], ◌∷◌, ◌++◌, append_assoc, append-nil, arith,
  if◌then◌else◌, Bool-cases, inl, inr,
}
use dazeus_core.Text.{Str, str_eq}
use dazeus_core.External.{Networks, NetworkCall, send_whois}
use dazeus_core.Json.{Jansson}
use dazeus_core.Socket
use dazeus_core.Socket.{SocketInfo, is_subscribed_to_command, command_might_need_whois}
use dazeus_core.Comm.{Command, Comm, whois_required, deliver, flush_commands, flush_command_queue}

module _ (j : Jansson) (nets : Networks) where
  pub whois_required-deliver :
      (identified : Bool) (cmd other : Command) (ss : List (ℕ × SocketInfo))
      → whois_required j nets (deliver j nets identified other ss) cmd
        ≡ whois_required j nets ss cmd
  unfolding whois_required deliver Socket.dispatch
  whois_required-deliver identified cmd other [] = refl
  whois_required-deliver identified cmd other ((fd, info) ∷ ss) =
      ground (arith, whois_required-deliver identified cmd other ss)

  module _ (nick : Str) (identified : Bool) where
    -- A command waits if a plugin may want to know its sender, who is not known as identified, and
    -- this is not the answer about that sender.
    abbrev pub is_held : List (ℕ × SocketInfo) → Command → Bool
    is_held ss cmd = whois_required j nets ss cmd && not (str_eq nick cmd.origin)

    abbrev pub held : List (ℕ × SocketInfo) → List Command → List Command
    held ss [] = []
    held ss (cmd ∷ rest) =
        if is_held ss cmd then record cmd { whois_sent = true } ∷ held ss rest else held ss rest

    abbrev pub released : List (ℕ × SocketInfo) → List Command → List Command
    released ss [] = []
    released ss (cmd ∷ rest) = if is_held ss cmd then released ss rest else cmd ∷ released ss rest

    abbrev pub whois_calls : List (ℕ × SocketInfo) → List Command → List NetworkCall
    whois_calls ss [] = []
    whois_calls ss (cmd ∷ rest) =
        if is_held ss cmd && not cmd.whois_sent
        then send_whois cmd.network cmd.origin ∷ whois_calls ss rest
        else whois_calls ss rest

    abbrev pub deliver_all : List Command → List (ℕ × SocketInfo) → List (ℕ × SocketInfo)
    deliver_all [] ss = ss
    deliver_all (cmd ∷ rest) ss = deliver_all rest (deliver j nets identified cmd ss)

    -- the sockets after some deliveries raise the same questions
    abbrev SameNeeds : List (ℕ × SocketInfo) → List (ℕ × SocketInfo) → Type 0
    SameNeeds ss ts = (cmd : Command) → whois_required j nets ts cmd ≡ whois_required j nets ss cmd

    flush_commands_lem :
        (ss : List (ℕ × SocketInfo)) (q : List Command) (s : Comm)
        → SameNeeds ss s.sockets
        → flush_commands j nets nick identified s q ≡ record {
          sockets = deliver_all (released ss q) s.sockets;
          command_queue = s.command_queue ++ held ss q;
          calls = s.calls ++ whois_calls ss q;
        }
    unfolding flush_commands
    flush_commands_lem ss [] s same = ground (arith, append-nil s.command_queue, append-nil s.calls)
    flush_commands_lem ss (cmd ∷ q) s same = elim (Bool-cases (is_held ss cmd)) [
      | inr free ↦
          rw (same cmd, free)
            (flush_commands_lem ss q
              (record s { sockets = deliver j nets identified cmd s.sockets })
              (λ c. whois_required-deliver identified c cmd s.sockets ∙ same c))
      | inl waits ↦ elim (Bool-cases cmd.whois_sent) [
        | inl old ↦
            rw (same cmd, waits, old)
              (flush_commands_lem ss q
                  (record s {
                    command_queue = s.command_queue ++ record cmd { whois_sent = true } ∷ [];
                  })
                  same
                ∙ rw append_assoc)
        | inr new ↦
            rw (same cmd, waits, new)
              (flush_commands_lem ss q
                  (record s {
                    command_queue = s.command_queue ++ record cmd { whois_sent = true } ∷ [];
                    calls = s.calls ++ send_whois cmd.network cmd.origin ∷ [];
                  })
                  same
                ∙ rw (append_assoc s.command_queue, append_assoc s.calls))
      ]
    ]

    -- One flush: the commands that wait stay in order, marked as asked about; a whois is sent for each
    -- of them that was not asked about before; all the others go, in order, to the plugins that take them.
    pub flush_command_queue_lem :
        (s : Comm)
        → flush_command_queue j nets nick identified s ≡ record {
          sockets = deliver_all (released s.sockets s.command_queue) s.sockets;
          command_queue = held s.sockets s.command_queue;
          calls = s.calls ++ whois_calls s.sockets s.command_queue;
        }
    unfolding flush_command_queue
    flush_command_queue_lem s =
        flush_commands_lem s.sockets s.command_queue (record s { command_queue = [] }) (λ c. refl)
