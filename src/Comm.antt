-- ===== src/Comm.antt =====
-- `PluginComm` (src/plugincomm.cpp): the connections, the queue of commands, and what the bot does
-- with an IRC event. `dispatch`, `flushCommandQueue`, `messageReceived`; `ircEvent` is in `Comm.Events`.
pub mod Flush
pub mod Queue
pub mod Asked
pub mod Events
pub mod Answers
use dazeus_core.Base.{
  ℕ, ◌+◌, Bool, true, false, not, ◌&&◌, ◌||◌, List, [], ◌∷◌, ◌++◌, ◌==◌, if◌then◌else◌, is_empty,
  length, drop,
}
use dazeus_core.Text.{Str, str_eq, lit}
use dazeus_core.External.{Utils, Networks, NetworkCall, send_whois}
use dazeus_core.Json.{Jansson}
use dazeus_core.Run.{Run, done, dies, assert_failed}
use dazeus_core.Command.{parse_args, parse_full_args}
use dazeus_core.Socket
use dazeus_core.Socket.{
  SocketInfo, is_subscribed, is_subscribed_to_command, command_might_need_whois,
}

-- `network` is the address that the reference stands for.
pub record Command : Type 0 where
  pub network : ℕ
  pub origin : Str
  pub channel : Str
  pub command : Str
  pub full_args : Str
  pub args : List Str
  pub whois_sent : Bool

-- `sockets_` in the order of its keys, `commandQueue_`, and the calls made on `Network` objects
pub record Comm : Type 0 where
  pub sockets : List (ℕ × SocketInfo)
  pub command_queue : List Command
  pub calls : List NetworkCall

module _ (u : Utils) (j : Jansson) where
  -- `PluginComm::dispatch`
  unfoldable dispatch_sockets : Str → List Str → List (ℕ × SocketInfo) → List (ℕ × SocketInfo)
  dispatch_sockets event parameters [] = []
  dispatch_sockets event parameters ((fd, info) ∷ rest) =
      (fd, if is_subscribed u info event then Socket.dispatch j info event parameters else info)
      ∷ dispatch_sockets event parameters rest

  unfoldable pub dispatch : Str → List Str → Comm → Comm
  unfolding dispatch_sockets
  dispatch event parameters s = record s { sockets = dispatch_sockets event parameters s.sockets }

module _ (j : Jansson) (nets : Networks) where
  -- the loop that sets `whoisRequired`
  unfoldable pub whois_required : List (ℕ × SocketInfo) → Command → Bool
  whois_required [] cmd = false
  whois_required ((fd, info) ∷ rest) cmd =
      if command_might_need_whois info.commands cmd.command
        && not (nets.is_identified cmd.network cmd.origin)
      then true
      else whois_required rest cmd

  unfoldable pub command_parameters : Command → List Str
  command_parameters cmd =
      nets.network_name cmd.network
      ∷ cmd.origin
      ∷ cmd.channel
      ∷ cmd.command
      ∷ cmd.full_args
      ∷ cmd.args

  -- the loop that hands a command to the plugins that are subscribed to it
  unfoldable pub deliver : Bool → Command → List (ℕ × SocketInfo) → List (ℕ × SocketInfo)
  deliver identified cmd [] = []
  deliver identified cmd ((fd, info) ∷ rest) =
      (
        fd,
        if is_subscribed_to_command info.commands cmd.command cmd.channel cmd.origin
              (nets.is_identified cmd.network cmd.origin || identified) cmd.network
            then Socket.dispatch j info (lit "COMMAND") (command_parameters cmd)
            else info,
      )
      ∷ deliver identified cmd rest

  -- The body of the loop over `commandQueue_`; the commands that stay are put back in order. Behind
  -- `erase`, the step back and the step forth of the iterator lead to the next command; that a step
  -- back from the first command is undefined is left out.
  unfoldable flush_command : Str → Bool → Comm → Command → Comm
  flush_command nick identified s cmd =
      if whois_required s.sockets cmd && not (str_eq nick cmd.origin)
      then (if not cmd.whois_sent
          then record s {
            calls = s.calls ++ send_whois cmd.network cmd.origin ∷ [];
            command_queue = s.command_queue ++ record cmd { whois_sent = true } ∷ [];
          }
          else record s { command_queue = s.command_queue ++ cmd ∷ [] })
      else record s { sockets = deliver identified cmd s.sockets }

  unfoldable pub flush_commands : Str → Bool → Comm → List Command → Comm
  unfolding flush_command
  flush_commands nick identified s [] = s
  flush_commands nick identified s (cmd ∷ rest) =
      flush_commands nick identified (flush_command nick identified s cmd) rest

  unfoldable pub flush_command_queue : Str → Bool → Comm → Comm
  unfolding flush_commands
  flush_command_queue nick identified s =
      flush_commands nick identified (record s { command_queue = [] }) s.command_queue

module _ (u : Utils) (nets : Networks) where
  -- the part of `message` behind our nick or the highlight character, empty if it is not for us
  unfoldable payload_of : Str → Str → ℕ → Str
  payload_of highlight message n =
      if u.starts_with message (nets.nick n ++ lit ":") true
        || u.starts_with message (nets.nick n ++ lit ",") true
      then u.trim (drop (length (nets.nick n) + 1) message)
      else if u.starts_with message highlight true
      then u.trim (drop (length highlight) message)
      else []

  unfoldable pub bool_text : Bool → Str
  bool_text b = if b then lit "true" else lit "false"

module _ (u : Utils) (j : Jansson) (nets : Networks) where
  -- `if(args.size() > 0)`: the command is queued, and the queue flushed
  unfoldable queue_command : ℕ → Str → Str → Str → List Str → Comm → Comm
  queue_command n origin receiver full [] s = s
  queue_command n origin receiver full (command ∷ args) s =
      flush_command_queue j nets [] false (record s {
        command_queue =
            s.command_queue
            ++ record {
              network = n;
              origin = origin;
              channel = receiver;
              command = command;
              full_args = u.trim full;
              args = args;
              whois_sent = false;
            }
              ∷ [];
      })

  -- `highlight` is `config_->getGlobalConfig().highlight`
  unfoldable pub message_received : Str → Str → Str → Str → ℕ → Comm → Run Comm
  unfolding queue_command payload_of bool_text
  message_received highlight origin message receiver n s =
      let payload = payload_of u nets highlight message n in
      let queued =
        if is_empty payload
        then s
        else queue_command n origin receiver (parse_full_args payload) (parse_args payload) s in
      if n == 0
      then dies assert_failed
      else done (
          dispatch u j (lit "PRIVMSG")
            (nets.network_name n
              ∷ origin
              ∷ receiver
              ∷ message
              ∷ bool_text u nets (nets.is_identified n origin)
              ∷ [])
            queued)
