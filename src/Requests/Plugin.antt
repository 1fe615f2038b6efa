-- ===== src/Requests/Plugin.antt =====
-- The requests by which a plugin says who it is and what it wants to hear (src/plugincomm.cpp,
-- `handle`).
use dazeus_core.Base.{ℕ, ◌+◌, Bool, List, [], ◌∷◌, Option, none, some, if◌then◌else◌}
use dazeus_core.Text.{Str, lit, is}
use dazeus_core.Text.Decimal.{read_int}
use dazeus_core.Int.{pos}
use dazeus_core.Map
use dazeus_core.External.{Utils}
use dazeus_core.Json.{Jansson, json_integer}
use dazeus_core.Socket.{
  SocketInfo, RequirementInfo, anything, on_network, on_network_for, did_handshake, subscribe,
  unsubscribe, subscribe_to_command,
}
use dazeus_core.Requests.{
  Outcome, returns, throws, crashes, Request, Result, respond, respond_text, succeed, finished,
  fails,
}

-- `version >> info.protocol_version`
unfoldable pub version_number : Option ℕ → ℕ
version_number none = 0
version_number (some n) = n

-- the requirement that the parameters after the name of a command stand for
unfoldable pub requirement_of : List (Str × ℕ) → List Str → Outcome RequirementInfo
requirement_of networks [] = returns anything
requirement_of networks (network ∷ []) = elim (Map.find network networks) [
  | none ↦ throws (lit "Not on that network")
  | some n ↦ returns (on_network n)
]
requirement_of networks (network ∷ sender ∷ obj ∷ []) = elim (Map.find network networks) [
  | none ↦ throws (lit "Not on that network")
  | some n ↦ returns (on_network_for n obj (is sender "true"))
]
requirement_of networks _ = throws (lit "Wrong number of parameters")

module _ {D : Type 0} (j : Jansson) where
  unfoldable pub take_handshake : Str → Str → Str → Str → Request D → Result D
  take_handshake name version protocol group r =
      let s = succeed j r in
      finished (record s {
        info = record s.info {
          plugin_name = name;
          plugin_version = version;
          protocol_version = version_number (read_int protocol);
          config_group = group;
        };
      })

  -- the tests of `handshake` after `did`
  unfoldable pub greet : List Str → Request D → Result D
  greet (name ∷ version ∷ protocol ∷ group ∷ _) r =
      if is protocol "1"
      then take_handshake name version protocol group r
      else fails r "Protocol version must be '1'"
  greet _ r = fails r "Missing parameters for handshake"

  -- `handshake`
  unfoldable pub on_handshake : List Str → Request D → Result D
  on_handshake params r =
      let s = respond_text j "did" (lit "handshake") r in
      if did_handshake s.info then fails s "Already did handshake" else greet params s

  -- `reload`
  unfoldable pub on_reload : Outcome Unit → Request D → Result D
  on_reload reload r = (succeed j (respond_text j "did" (lit "reload") r), reload)

  abbrev pub add_command : Str → Request D → Outcome RequirementInfo → Result D
  add_command name r (returns q) =
      finished (succeed j (record r { info = subscribe_to_command r.info name q }))
  add_command name r (throws why) = (r, throws why)
  add_command name r (crashes why) = (r, crashes why)

  -- `command`
  unfoldable pub on_command : List (Str × ℕ) → List Str → Request D → Result D
  on_command networks [] r = fails (respond_text j "did" (lit "command") r) "Missing parameters"
  on_command networks (name ∷ rest) r =
      add_command name (respond_text j "did" (lit "command") r) (requirement_of networks rest)

module _ (u : Utils) where
  abbrev count : Bool → ℕ → ℕ
  count b n = if b then n + 1 else n

  -- the loops over the events, with the number of those that changed something
  unfoldable pub subscribe_all : SocketInfo → List Str → SocketInfo × ℕ
  subscribe_all info [] = (info, 0)
  subscribe_all info (t ∷ ts) =
      let once = subscribe u info t in
      let rest = subscribe_all once.0 ts in (rest.0, count once.1 rest.1)

  unfoldable pub unsubscribe_all : SocketInfo → List Str → SocketInfo × ℕ
  unsubscribe_all info [] = (info, 0)
  unsubscribe_all info (t ∷ ts) =
      let once = unsubscribe u info t in
      let rest = unsubscribe_all once.0 ts in (rest.0, count once.1 rest.1)

module _ {D : Type 0} (u : Utils) (j : Jansson) where
  -- `subscribe`
  unfoldable pub on_subscribe : List Str → Request D → Result D
  on_subscribe params r =
      let s = succeed j (respond_text j "did" (lit "subscribe") r) in
      let done_all = subscribe_all u s.info params in
      finished
        (respond j "added" (some (json_integer (pos done_all.1))) (record s { info = done_all.0 }))

  -- `unsubscribe`
  unfoldable pub on_unsubscribe : List Str → Request D → Result D
  on_unsubscribe params r =
      let s = succeed j (respond_text j "did" (lit "unsubscribe") r) in
      let done_all = unsubscribe_all u s.info params in
      finished (
        respond j "removed" (some (json_integer (pos done_all.1))) (record s { info = done_all.0 }))
