-- ===== src/Requests/Handle.antt =====
-- `PluginComm::handle`, and what `poll` does with a packet (src/plugincomm.cpp).
use dazeus_core.Base.{Bool, ◌||◌, List, ◌++◌, Option, none, some, if◌then◌else◌}
use dazeus_core.Text.{Str, lit, is}
use dazeus_core.Run.{Run, done, dies, uncaught_exception}
use dazeus_core.Wire.{encode}
use dazeus_core.External.{Utils, Networks}
use dazeus_core.Json.{Json, c_str, json_false, json_object, no_fields, Jansson}
use dazeus_core.Requests.{
  Outcome, returns, throws, crashes, Database, Bot, Request, Result, respond, respond_text, fails,
}
use dazeus_core.Requests.Input.{input_get, params_of, scope_of, action_of}
use dazeus_core.Requests.Network.{list_networks, on_network, on_channel}
use dazeus_core.Requests.Plugin.{on_handshake, on_reload, on_command, on_subscribe, on_unsubscribe}
use dazeus_core.Requests.Storage.{on_property, on_config, on_permission}

unfoldable pub is_network_action : Str → Bool
is_network_action act =
    is act "channels" || is act "whois" || is act "join" || is act "part" || is act "nick"

unfoldable pub is_channel_action : Str → Bool
is_channel_action act =
    is act "message"
    || is act "notice"
    || is act "action"
    || is act "ctcp"
    || is act "ctcp_rep"
    || is act "names"

module _ {D : Type 0} (u : Utils) (j : Jansson) (nets : Networks) (db : Database D)
    (bot : Bot) where
  -- the chain of tests of `action`
  unfoldable pub perform : Str → List Str → List Str → Request D → Result D
  perform act params scope r =
      if is act "networks"
      then list_networks j nets bot r
      else if is act "handshake"
      then on_handshake j params r
      else if is act "reload"
      then on_reload j bot.reload r
      else if is_network_action act
      then on_network j nets bot act params r
      else if is_channel_action act
      then on_channel u j nets bot.networks act params r
      else if is act "subscribe"
      then on_subscribe u j params r
      else if is act "unsubscribe"
      then on_unsubscribe u j params r
      else if is act "command"
      then on_command j bot.networks params r
      else if is act "property"
      then on_property j db scope params r
      else if is act "config"
      then on_config j bot params r
      else if is act "permission"
      then on_permission j db scope params r
      else fails r "Did not understand request"

  abbrev pub with_action : List Str → List Str → Outcome Str → Request D → Result D
  with_action params scope (returns act) r = perform act params scope r
  with_action params scope (throws why) r = (r, throws why)
  with_action params scope (crashes why) r = (r, crashes why)

  abbrev pub with_params : Outcome (List Str) → Json → Request D → Result D
  with_params (returns params) input r =
      with_action params (scope_of (input_get j input (lit "scope")))
        (action_of (input_get j input (lit "get")) (input_get j input (lit "do"))) r
  with_params (throws why) input r = (r, throws why)
  with_params (crashes why) input r = (r, crashes why)

  unfoldable pub handle : Json → Request D → Result D
  handle input r = with_params (params_of (input_get j input (lit "params"))) input r

  -- the `try` around `handle`
  unfoldable pub caught : Result D → Run (Request D)
  caught (r, returns _) = done r
  caught (r, throws why) =
      done (respond_text j "error" why (respond j "success" (some json_false) r))
  caught (r, crashes why) = dies why

  -- the answer is written behind what waits to be written
  abbrev pub write_answer : Run (Request D) → Run (Request D)
  write_answer (done r) = done (record r {
    info = record r.info {
      writebuffer = r.info.writebuffer ++ encode (j.dumps (json_object r.response));
    };
  })
  write_answer m = m

  abbrev pub answer_input : Option Json → Request D → Run (Request D)
  answer_input none r = dies uncaught_exception
  answer_input (some input) r =
      write_answer (caught (handle input (record r { response = no_fields })))

  -- what `poll` does with one packet, which jansson reads as a C string
  unfoldable pub on_packet : Request D → Str → Run (Request D)
  unfolding c_str
  on_packet r text = answer_input (j.loads (c_str text)) r
