-- ===== src/Requests/Network.antt =====
-- The requests on a network and on a channel (src/plugincomm.cpp, `handle`).
use dazeus_core.Base.{ℕ, not, ◌||◌, List, [], ◌∷◌, Option, none, some, take, if◌then◌else◌}
use dazeus_core.Text.{Str, str_eq, lit, is}
use dazeus_core.Map
use dazeus_core.External.{
  Utils, Networks, NetworkCall, send_whois, join_channel, leave_channel, names, say, notice, action,
  ctcp, ctcp_reply,
}
use dazeus_core.Json.{Jansson, json_array, no_items, append_strings}
use dazeus_core.Requests.{
  Bot, Request, Result, respond, respond_text, succeed, call, finished, fails,
}

abbrev keys_of : List (Str × ℕ) → List Str
keys_of [] = []
keys_of ((name, n) ∷ rest) = name ∷ keys_of rest

module _ {D : Type 0} (j : Jansson) (nets : Networks) (bot : Bot) where
  -- `networks`
  unfoldable pub list_networks : Request D → Result D
  list_networks r = finished (
      respond j "networks" (some (json_array (append_strings j no_items (keys_of bot.networks))))
        (succeed j (respond_text j "got" (lit "networks") r)))

  -- `channels`
  unfoldable pub list_channels : ℕ → Request D → Result D
  list_channels n r = finished (
      respond j "channels" (some (json_array (append_strings j no_items (nets.joined_channels n))))
        (succeed j r))

  -- `whois`, `join` and `part`, with the parameters that follow the network
  unfoldable pub ask_network : Str → ℕ → List Str → Request D → Result D
  ask_network act n [] r = fails r "Missing parameters"
  ask_network act n (p ∷ _) r =
      let s = succeed j r in
      if is act "whois"
      then finished (call (send_whois n p) s)
      else if is act "join"
      then finished (call (join_channel n p) s)
      else if is act "part"
      then finished (call (leave_channel n p) s)
      else finished s

  unfoldable pub on_found_network : Str → Str → List Str → Request D → Option ℕ → Result D
  on_found_network act network rest r none = fails r "Not on that network"
  on_found_network act network rest r (some n) =
      let s = respond_text j "network" network r in
      if is act "channels"
      then list_channels n s
      else if is act "whois" || is act "join" || is act "part"
      then ask_network act n rest s
      else if is act "nick"
      then finished (respond_text j "nick" (nets.nick n) (succeed j s))
      else finished s

  abbrev answer_key : Str → Request D → Request D
  answer_key act r =
      if is act "channels" || is act "nick"
      then respond_text j "got" act r
      else respond_text j "did" act r

  -- the requests on a network; without parameters, the network's name is empty
  unfoldable pub on_network : Str → List Str → Request D → Result D
  on_network act [] r = on_found_network act [] [] (answer_key act r) (Map.find [] bot.networks)
  on_network act (network ∷ rest) r =
      on_found_network act network rest (answer_key act r) (Map.find network bot.networks)

unfoldable pub channel_call : Str → ℕ → Str → Str → NetworkCall
channel_call act n receiver message =
    if is act "names"
    then names n receiver
    else if is act "message"
    then say n receiver message
    else if is act "notice"
    then notice n receiver message
    else if is act "ctcp"
    then ctcp n receiver message
    else if is act "ctcp_rep"
    then ctcp_reply n receiver message
    else action n receiver message

module _ {D : Type 0} (u : Utils) (j : Jansson) (nets : Networks) where
  -- the loop over the networks: the first with this name takes the call
  unfoldable pub send_to : Str → Str → Str → Str → List (Str × ℕ) → Request D → Result D
  send_to act network receiver message [] r = fails r "Not on that network"
  send_to act network receiver message ((key, n) ∷ rest) r =
      let later = send_to act network receiver message rest r in
      if str_eq (nets.network_name n) network
      then (if not (is (take 1 receiver) "#")
            || u.contains_ci (nets.joined_channels n) (u.str_to_lower receiver)
          then finished (call (channel_call act n receiver message) (succeed j r))
          else fails r "Not in that channel")
      else later

  abbrev wrong_size : Str → Request D → Result D
  wrong_size act r = fails r "Wrong parameter size for message"

  abbrev send_names : List (Str × ℕ) → Str → Str → Str → Request D → Result D
  send_names networks act network receiver r =
      send_to act network receiver [] networks
        (respond_text j "channel" receiver (respond_text j "network" network r))

  -- the requests on a channel
  unfoldable pub on_channel : List (Str × ℕ) → Str → List Str → Request D → Result D
  on_channel networks act (network ∷ receiver ∷ message ∷ _) r =
      let s = respond_text j "did" act r in
      if is act "names"
      then send_names networks act network receiver s
      else send_to act network receiver message networks (
          respond_text j "message" message
            (respond_text j "receiver" receiver (respond_text j "network" network s)))
  on_channel networks act (network ∷ receiver ∷ []) r =
      let s = respond_text j "did" act r in
      if is act "names" then send_names networks act network receiver s else wrong_size act s
  on_channel networks act (network ∷ []) r = wrong_size act (respond_text j "did" act r)
  on_channel networks act [] r = wrong_size act (respond_text j "did" act r)
