-- ===== src/Tests/CommRuns.antt =====
-- Subscriptions, the queue of commands and the events, with two plugins.
use dazeus_core.Base.{◌≡◌, refl, true, false, not, ◌&&◌, ◌||◌, [], ◌∷◌, ◌++◌, All}
use dazeus_core.Text.{Str, lit, str_eq, is}
use dazeus_core.Run.{Gives}
use dazeus_core.External.{Distinct, send_whois}
use dazeus_core.Socket.{
  SocketInfo, anything, on_network, on_network_for, requirement_met, is_subscribed, subscribe,
  unsubscribe, subscribe_to_command, is_subscribed_to_command, command_might_need_whois,
}
use dazeus_core.Socket.Subscriptions.{subscriptions_lem}
use dazeus_core.Socket.Commands.{subscribe_to_command_lem}
use dazeus_core.Comm.{Command, Comm, flush_command_queue, whois_required}
use dazeus_core.Comm.Flush.{held, released, whois_calls, deliver_all, flush_command_queue_lem}
use dazeus_core.Comm.Queue.{outbox, send_all, deliver_all-send_all}
use dazeus_core.Comm.Asked.{Among, marked, IsWaiting, flush_command_queue_answered}
use dazeus_core.Comm.Events.{irc_event}
use dazeus_core.Comm.Answers.{is_named, irc_event-Gives}
use dazeus_core.Tests.Samples.{utils, utils-laws, jansson, nets}

abbrev listener : SocketInfo
listener = record {
  kind = lit "unix";
  subscriptions = lit "JOIN" ∷ lit "PART" ∷ [];
  commands = (lit "kick", on_network_for 1 (lit "ann") true) ∷ (lit "say", anything) ∷ [];
  frame = record { waiting_size = 0; readahead = [] };
  writebuffer = [];
  plugin_name = [];
  plugin_version = [];
  protocol_version = 0;
  config_group = [];
}

abbrev asked : Str → Str → Command
asked who what = record {
  network = 1;
  origin = who;
  channel = lit "#a";
  command = what;
  full_args = [];
  args = [];
  whois_sent = false;
}

abbrev bot : Comm
bot = record {
  sockets = (4, listener) ∷ [];
  command_queue = asked (lit "ann") (lit "kick") ∷ asked (lit "bob") (lit "say") ∷ [];
  calls = [];
}

-- the command that needs to know its sender waits, and a whois is sent
first_flush : (flush_command_queue jansson nets [] false bot).calls ≡ send_whois 1 (lit "ann") ∷ []
unfolding flush_command_queue lit on_network_for whois_required command_might_need_whois str_eq
first_flush = refl

subscriptions_lem_example :
    ((is_subscribed utils (subscribe utils listener (lit "quit")).0 (lit "Quit") ≡ (
        is_subscribed utils listener (lit "Quit")
        || str_eq (utils.str_to_upper (lit "Quit")) (utils.str_to_upper (lit "quit"))))
      × ((subscribe utils listener (lit "quit")).1
          ≡ not (is_subscribed utils listener (lit "quit")))
      × Distinct (subscribe utils listener (lit "quit")).0.subscriptions)
    × ((is_subscribed utils (unsubscribe utils listener (lit "quit")).0 (lit "Quit") ≡ (
          is_subscribed utils listener (lit "Quit")
          && not (str_eq (utils.str_to_upper (lit "Quit")) (utils.str_to_upper (lit "quit")))))
        × ((unsubscribe utils listener (lit "quit")).1 ≡ is_subscribed utils listener (lit "quit"))
        × Distinct (unsubscribe utils listener (lit "quit")).0.subscriptions)
unfolding lit str_eq
subscriptions_lem_example =
    subscriptions_lem utils utils-laws listener (lit "quit") (lit "Quit") (refl, (refl, tt))

subscribe_to_command_lem_example :
    is_subscribed_to_command
      (subscribe_to_command listener (lit "help") (on_network 1)).commands
      (lit "help")
      (lit "#a")
      (lit "bob")
      false
      1
    ≡ (str_eq (lit "help") (lit "help")
          && requirement_met (on_network 1) (lit "#a") (lit "bob") false 1
        || is_subscribed_to_command listener.commands (lit "help") (lit "#a") (lit "bob") false 1)
subscribe_to_command_lem_example =
    subscribe_to_command_lem (lit "help") (lit "#a") (lit "bob") 1 listener (lit "help")
      (on_network 1) false

flush_command_queue_lem_example : flush_command_queue jansson nets (lit "ann") true bot ≡ record {
  sockets =
      deliver_all jansson nets
        (lit "ann")
        true
        (released jansson nets (lit "ann") true bot.sockets bot.command_queue)
        bot.sockets;
  command_queue = held jansson nets (lit "ann") true bot.sockets bot.command_queue;
  calls = bot.calls ++ whois_calls jansson nets (lit "ann") true bot.sockets bot.command_queue;
}
flush_command_queue_lem_example = flush_command_queue_lem jansson nets (lit "ann") true bot

deliver_all-send_all_example :
    deliver_all jansson nets (lit "ann") true bot.command_queue bot.sockets
    ≡ send_all jansson nets (λ info. outbox jansson nets true info bot.command_queue) bot.sockets
deliver_all-send_all_example =
    deliver_all-send_all jansson nets (lit "ann") true bot.command_queue bot.sockets

flush_command_queue_answered_example :
    let t = flush_command_queue jansson nets (lit "bob") false bot in
    All (IsWaiting jansson nets (lit "bob") false t.calls) t.command_queue
    × All
        (λ c.
          (whois_required jansson nets bot.sockets c && not (str_eq (lit "bob") c.origin)) ≡ true
          → Among (marked c) t.command_queue)
        bot.command_queue
flush_command_queue_answered_example =
    flush_command_queue_answered jansson nets (lit "bob") false bot
      ((λ e. absurd cc), ((λ e. absurd cc), tt))

irc_event-Gives_example :
    Gives
      (λ s. Unit {0})
      (irc_event utils jansson nets (lit "}") (lit "PRIVMSG") (lit "ann") [] 1 bot)
unfolding lit str_eq is_named is
irc_event-Gives_example =
    irc_event-Gives utils jansson nets (lit "}") (lit "PRIVMSG") (lit "ann") [] 1 bot refl refl refl
