-- ===== src/Socket.antt =====
-- `PluginComm::SocketInfo` and `PluginComm::RequirementInfo` of src/plugincomm.h: what the bot
-- keeps of one plugin connection.
pub mod Subscriptions
pub mod Commands
use dazeus_core.Base.{
  ℕ, Bool, true, false, not, ◌&&◌, ◌||◌, List, [], ◌∷◌, ◌++◌, some, ◌==◌, if◌then◌else◌, ltb,
}
use dazeus_core.Text.{Str, str_eq, str_lt, lit}
use dazeus_core.External.{Utils}
use dazeus_core.Json.{Jansson, json_array, json_object, no_items, no_fields, append_strings, c_str}
use dazeus_core.Wire.{Frame, encode}

-- `wanted_network` is the address of a `Network`, 0 for NULL.
pub record RequirementInfo : Type 0 where
  pub needs_network : Bool
  pub needs_receiver : Bool
  pub needs_sender : Bool
  pub wanted_network : ℕ
  pub wanted_receiver : Str
  pub wanted_sender : Str

-- the constructor which allows anything
abbrev pub anything : RequirementInfo
anything = record {
  needs_network = false;
  needs_receiver = false;
  needs_sender = false;
  wanted_network = 0;
  wanted_receiver = [];
  wanted_sender = [];
}

-- the constructor which allows anything on a network
abbrev pub on_network : ℕ → RequirementInfo
on_network n = record anything { needs_network = true; wanted_network = n }

-- the constructor for a sender, or for a receiver
unfoldable pub on_network_for : ℕ → Str → Bool → RequirementInfo
on_network_for n obj is_sender =
    if is_sender
    then record (on_network n) { needs_sender = true; wanted_sender = obj }
    else record (on_network n) { needs_receiver = true; wanted_receiver = obj }

pub record SocketInfo : Type 0 where
  pub kind : Str
  pub subscriptions : List Str
  pub commands : List (Str × RequirementInfo)
  pub frame : Frame
  pub writebuffer : Str
  pub plugin_name : Str
  pub plugin_version : Str
  pub protocol_version : ℕ
  pub config_group : Str

unfoldable pub new_socket : Str → SocketInfo
new_socket kind = record {
  kind = kind;
  subscriptions = [];
  commands = [];
  frame = record { waiting_size = 0; readahead = [] };
  writebuffer = [];
  plugin_name = [];
  plugin_version = [];
  protocol_version = 0;
  config_group = [];
}

unfoldable pub did_handshake : SocketInfo → Bool
did_handshake info = not (info.protocol_version == 0)

module _ (u : Utils) where
  unfoldable pub is_subscribed : SocketInfo → Str → Bool
  is_subscribed info t = u.contains info.subscriptions (u.str_to_upper t)

  unfoldable pub unsubscribe : SocketInfo → Str → SocketInfo × Bool
  unfolding is_subscribed
  unsubscribe info t =
      if not (is_subscribed info t)
      then (info, false)
      else (record info { subscriptions = u.erase info.subscriptions (u.str_to_upper t) }, true)

  unfoldable pub subscribe : SocketInfo → Str → SocketInfo × Bool
  unfolding is_subscribed
  subscribe info t =
      if is_subscribed info t
      then (info, false)
      else (record info { subscriptions = info.subscriptions ++ u.str_to_upper t ∷ [] }, true)

-- the tests of the loop in `isSubscribedToCommand`: `false` is a `continue`
unfoldable pub requirement_met : RequirementInfo → Str → Str → Bool → ℕ → Bool
requirement_met r recv sender identified network =
    if r.needs_network && not (r.wanted_network == network)
    then false
    else if r.needs_receiver && not (str_eq r.wanted_receiver recv)
    then false
    else if r.needs_sender
    then (if not identified || not (str_eq r.wanted_sender sender) then false else true)
    else true

unfoldable pub is_subscribed_to_command :
    List (Str × RequirementInfo) → Str → Str → Str → Bool → ℕ → Bool
unfolding requirement_met
is_subscribed_to_command [] cmd recv sender identified network = false
is_subscribed_to_command ((k, r) ∷ rest) cmd recv sender identified network =
    if str_eq k cmd && requirement_met r recv sender identified network
    then true
    else is_subscribed_to_command rest cmd recv sender identified network

unfoldable pub command_might_need_whois : List (Str × RequirementInfo) → Str → Bool
command_might_need_whois [] cmd = false
command_might_need_whois ((k, r) ∷ rest) cmd =
    if str_eq k cmd && r.needs_sender then true else command_might_need_whois rest cmd

-- `multimap::insert`: behind the entries whose keys are not greater
unfoldable pub insert_command :
    Str → RequirementInfo → List (Str × RequirementInfo) → List (Str × RequirementInfo)
insert_command k r [] = (k, r) ∷ []
insert_command k r ((j, q) ∷ rest) =
    if str_lt k j then (k, r) ∷ (j, q) ∷ rest else (j, q) ∷ insert_command k r rest

unfoldable pub subscribe_to_command : SocketInfo → Str → RequirementInfo → SocketInfo
unfolding insert_command
subscribe_to_command info cmd r = record info { commands = insert_command cmd r info.commands }

-- The JSON text of an event.
unfoldable pub event_text : Jansson → Str → List Str → Str
unfolding append_strings c_str
event_text j event parameters =
    let params = json_array (append_strings j no_items parameters) in
    let n = j.set_new no_fields (lit "event") (j.json_string (c_str event)) in
    j.dumps (json_object (j.set_new n (lit "params") (some params)))

-- The assertion that `event` holds no space is left out: the callers pass fixed names.
unfoldable pub dispatch : Jansson → SocketInfo → Str → List Str → SocketInfo
dispatch j info event parameters = record info {
  writebuffer = info.writebuffer ++ encode (event_text j event parameters);
}
