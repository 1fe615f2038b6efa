-- ===== src/Requests/Buffer.antt =====
-- The write buffer of the plugin while a request is handled (src/plugincomm.cpp, `handle`).
use dazeus_core.Base.{
  ℕ, ◌≡◌, refl, ◌∙◌, Bool, true, false, not, ◌||◌, List, [], ◌∷◌, Option, none, some, arith,
  if◌then◌else◌, take,
}
use dazeus_core.Text.{Str, is, str_eq}
use dazeus_core.External.{Utils, Networks}
use dazeus_core.Json.{Jansson}
use dazeus_core.Map
use dazeus_core.Socket.{
  SocketInfo, RequirementInfo, did_handshake, subscribe, unsubscribe, subscribe_to_command,
}
use dazeus_core.Requests.{
  Outcome, returns, throws, crashes, Bot, Request, Result, respond, respond_text, succeed, after,
}
use dazeus_core.Requests.Network.{
  list_networks, list_channels, ask_network, on_found_network, on_network, send_to, on_channel,
}
use dazeus_core.Requests.Plugin.{
  take_handshake, greet, on_handshake, on_reload, requirement_of, add_command, on_command,
  subscribe_all, unsubscribe_all, on_subscribe, on_unsubscribe,
}

module _ {D : Type 0} where
  -- what waits to be written stays as it is
  pub data Keeps (w : Str) : Result D → Type 0 where
    keeps : {r : Request D} {o : Outcome Unit} → r.info.writebuffer ≡ w → Keeps w (r, o)

  pub Keeps-if :
      {w : Str} {x y : Result D} (b : Bool) → Keeps w x → Keeps w y → Keeps w (if b then x else y)
  Keeps-if true h k = h
  Keeps-if false h k = k

  pub Keeps-after :
      {A : Type 0} {w : Str} (r : Request D) (m : D × Outcome A) (k : A → Request D → Result D)
      → r.info.writebuffer ≡ w
      → ((a : A) (s : Request D) → s.info.writebuffer ≡ w → Keeps w (k a s))
      → Keeps w (after r m k)
  Keeps-after r (db, returns a) k e h = h a _ e
  Keeps-after r (db, throws why) k e h = keeps e
  Keeps-after r (db, crashes why) k e h = keeps e

  abbrev pub IsSame : Str → Request D → Type 0
  IsSame w r = r.info.writebuffer ≡ w

module _ {D : Type 0} (j : Jansson) (nets : Networks) (bot : Bot) (w : Str) where
  pub list_networks-Keeps : (r : Request D) → IsSame w r → Keeps w (list_networks j nets bot r)
  unfolding list_networks respond respond_text succeed
  list_networks-Keeps r e = keeps e

  ask_network-Keeps :
      (act : Str) (n : ℕ) (rest : List Str) (r : Request D)
      → IsSame w r
      → Keeps w (ask_network j nets bot act n rest r)
  unfolding ask_network respond succeed
  ask_network-Keeps act n [] r e = keeps e
  ask_network-Keeps act n (p ∷ rest) r e =
      Keeps-if (is act "whois") (keeps e)
        (Keeps-if (is act "join") (keeps e) (Keeps-if (is act "part") (keeps e) (keeps e)))

  on_found_network-Keeps :
      (act network : Str) (rest : List Str) (r : Request D) (o : Option ℕ)
      → IsSame w r
      → Keeps w (on_found_network j nets bot act network rest r o)
  unfolding on_found_network list_channels respond respond_text succeed
  on_found_network-Keeps act network rest r none e = keeps e
  on_found_network-Keeps act network rest r (some n) e = Keeps-if (is act "channels") (keeps e) (
      Keeps-if (is act "whois" || is act "join" || is act "part") (ask_network-Keeps act n rest _ e)
        (Keeps-if (is act "nick") (keeps e) (keeps e)))

  pub on_network-Keeps :
      (act : Str) (params : List Str) (r : Request D)
      → IsSame w r
      → Keeps w (on_network j nets bot act params r)
  unfolding on_network respond respond_text
  on_network-Keeps act [] r e =
      on_found_network-Keeps act [] [] _ (Map.find [] bot.networks) (ground arith)
  on_network-Keeps act (n ∷ rest) r e =
      on_found_network-Keeps act n rest _ (Map.find n bot.networks) (ground arith)

module _ {D : Type 0} (u : Utils) (j : Jansson) (nets : Networks) (w : Str) where
  send_to-Keeps :
      (act network receiver message : Str) (networks : List (Str × ℕ)) (r : Request D)
      → IsSame w r
      → Keeps w (send_to u j nets act network receiver message networks r)
  unfolding send_to succeed respond
  send_to-Keeps act network receiver message [] r e = keeps e
  send_to-Keeps act network receiver message ((key, n) ∷ rest) r e =
      Keeps-if (str_eq (nets.network_name n) network)
        (Keeps-if
          (not (is (take 1 receiver) "#")
            || u.contains_ci (nets.joined_channels n) (u.str_to_lower receiver))
          (keeps e) (keeps e))
        (send_to-Keeps act network receiver message rest r e)

  pub on_channel-Keeps :
      (networks : List (Str × ℕ)) (act : Str) (params : List Str) (r : Request D)
      → IsSame w r
      → Keeps w (on_channel u j nets networks act params r)
  unfolding on_channel respond respond_text
  on_channel-Keeps networks act [] r e = keeps e
  on_channel-Keeps networks act (n ∷ []) r e = keeps e
  on_channel-Keeps networks act (n ∷ receiver ∷ []) r e =
      Keeps-if (is act "names") (send_to-Keeps act n receiver [] networks _ e) (keeps e)
  on_channel-Keeps networks act (n ∷ receiver ∷ message ∷ more) r e =
      Keeps-if (is act "names") (send_to-Keeps act n receiver [] networks _ e)
        (send_to-Keeps act n receiver message networks _ e)

module _ (u : Utils) where
  subscribe_all-writebuffer :
      (info : SocketInfo) (ts : List Str)
      → (subscribe_all u info ts).0.writebuffer ≡ info.writebuffer
  unfolding subscribe_all subscribe
  subscribe_all-writebuffer info [] = refl
  subscribe_all-writebuffer info (t ∷ ts) =
      subscribe_all-writebuffer (subscribe u info t).0 ts ∙ ground arith

  unsubscribe_all-writebuffer :
      (info : SocketInfo) (ts : List Str)
      → (unsubscribe_all u info ts).0.writebuffer ≡ info.writebuffer
  unfolding unsubscribe_all unsubscribe
  unsubscribe_all-writebuffer info [] = refl
  unsubscribe_all-writebuffer info (t ∷ ts) =
      unsubscribe_all-writebuffer (unsubscribe u info t).0 ts ∙ ground arith

module _ {D : Type 0} (j : Jansson) (w : Str) where
  greet-Keeps : (params : List Str) (r : Request D) → IsSame w r → Keeps w (greet j params r)
  unfolding greet take_handshake succeed respond
  greet-Keeps [] r e = keeps e
  greet-Keeps (a ∷ []) r e = keeps e
  greet-Keeps (a ∷ b ∷ []) r e = keeps e
  greet-Keeps (a ∷ b ∷ c ∷ []) r e = keeps e
  greet-Keeps (a ∷ b ∷ c ∷ d ∷ more) r e = Keeps-if (is c "1") (keeps e) (keeps e)

  pub on_handshake-Keeps :
      (params : List Str) (r : Request D) → IsSame w r → Keeps w (on_handshake j params r)
  unfolding on_handshake respond_text respond
  on_handshake-Keeps params r e = Keeps-if (did_handshake r.info) (keeps e) (greet-Keeps params _ e)

  pub on_reload-Keeps :
      (reload : Outcome Unit) (r : Request D) → IsSame w r → Keeps w (on_reload j reload r)
  unfolding on_reload respond_text succeed respond
  on_reload-Keeps reload r e = keeps e

  add_command-Keeps :
      (name : Str) (r : Request D) (o : Outcome RequirementInfo)
      → IsSame w r
      → Keeps w (add_command j name r o)
  unfolding subscribe_to_command succeed respond
  add_command-Keeps name r (returns q) e = keeps e
  add_command-Keeps name r (throws why) e = keeps e
  add_command-Keeps name r (crashes why) e = keeps e

  pub on_command-Keeps :
      (networks : List (Str × ℕ)) (params : List Str) (r : Request D)
      → IsSame w r
      → Keeps w (on_command j networks params r)
  unfolding on_command respond_text respond
  on_command-Keeps networks [] r e = keeps e
  on_command-Keeps networks (name ∷ rest) r e =
      add_command-Keeps name _ (requirement_of networks rest) e

  pub on_subscribe-Keeps :
      (u : Utils) (params : List Str) (r : Request D)
      → IsSame w r
      → Keeps w (on_subscribe u j params r)
  unfolding on_subscribe respond_text succeed respond
  on_subscribe-Keeps u params r e = keeps (subscribe_all-writebuffer u r.info params ∙ e)

  pub on_unsubscribe-Keeps :
      (u : Utils) (params : List Str) (r : Request D)
      → IsSame w r
      → Keeps w (on_unsubscribe u j params r)
  unfolding on_unsubscribe respond_text succeed respond
  on_unsubscribe-Keeps u params r e = keeps (unsubscribe_all-writebuffer u r.info params ∙ e)
