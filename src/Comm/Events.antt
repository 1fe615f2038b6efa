-- ===== src/Comm/Events.antt =====
-- `PluginComm::ircEvent` (src/plugincomm.cpp): what the bot does with an event of a network. A
-- network is an address, 0 for NULL.
use dazeus_core.Base.{ℕ, zero, suc, Bool, ◌||◌, List, [], ◌∷◌, ◌==◌, ltb, if◌then◌else◌, length}
use dazeus_core.Text.{Str, lit, is}
use dazeus_core.External.{Utils, Networks}
use dazeus_core.Json.{Jansson}
use dazeus_core.Run.{Run, done, dies, assert_failed, undefined_behaviour, ◌>>=◌}
use dazeus_core.Comm.{Comm, dispatch, flush_command_queue, message_received, bool_text}

-- `params[i]`, which has no meaning behind the end
unfoldable pub param : List Str → ℕ → Run Str
param [] i = dies undefined_behaviour
param (p ∷ ps) zero = done p
param (p ∷ ps) (suc i) = param ps i

-- the macro `MIN`
unfoldable pub at_least : List Str → ℕ → Comm → Run Comm → Run Comm
at_least params k s rest = if ltb (length params) k then done s else rest

-- a last parameter which may be left out
unfoldable pub optional_param : Bool → List Str → ℕ → Run Str
unfolding param
optional_param is_there params i = if is_there then param params i else done []

-- the events that are only meant for the sender
unfoldable pub is_own_event : Str → Bool
is_own_event event =
    is event "ACTION_ME"
    || is event "CTCP_ME"
    || is event "CTCP_REP_ME"
    || is event "PRIVMSG_ME"
    || is event "NOTICE_ME"

module _ (u : Utils) (j : Jansson) (nets : Networks) where
  abbrev tell : Str → ℕ → List Str → Comm → Run Comm
  tell event n args s = done (dispatch u j event (nets.network_name n ∷ args) s)

  unfoldable pub on_privmsg : Str → Str → List Str → ℕ → Comm → Run Comm
  unfolding param
  on_privmsg highlight origin params n s = param params 1 >>= λ message.
      param params 0 >>= λ receiver. message_received u j nets highlight origin message receiver n s

  unfoldable pub on_notice : Str → List Str → ℕ → Comm → Run Comm
  unfolding param bool_text
  on_notice origin params n s = param params 0 >>= λ receiver. param params 1 >>= λ message.
      tell (lit "NOTICE") n
        (origin ∷ receiver ∷ message ∷ bool_text u nets (nets.is_identified n origin) ∷ []) s

  unfoldable pub on_kick : Str → List Str → ℕ → Comm → Run Comm
  unfolding param optional_param
  on_kick origin params n s = param params 1 >>= λ nick.
      optional_param (length params == 3) params 2 >>= λ message.
      param params 0 >>= λ channel. tell (lit "KICK") n (origin ∷ channel ∷ nick ∷ message ∷ []) s

  -- PART, TOPIC and ACTION: a first parameter, and a second which may be left out
  unfoldable pub on_texts : Str → Bool → Str → List Str → ℕ → Comm → Run Comm
  unfolding param optional_param
  on_texts event is_there origin params n s = optional_param is_there params 1 >>= λ text.
      param params 0 >>= λ channel. tell event n (origin ∷ channel ∷ text ∷ []) s

  unfoldable pub on_whois : Str → List Str → ℕ → Comm → Run Comm
  unfolding param
  on_whois origin params n s = param params 0 >>= λ nick. param params 1 >>= λ answer. done (
      flush_command_queue j nets nick (is answer "true")
        (dispatch u j (lit "WHOIS") (nets.network_name n ∷ origin ∷ nick ∷ answer ∷ []) s))

  unfoldable pub irc_event : Str → Str → Str → List Str → ℕ → Comm → Run Comm
  unfolding on_privmsg on_notice on_kick on_texts on_whois at_least is_own_event
  irc_event highlight event origin params n s =
      if n == 0
      then dies assert_failed
      else if is event "PRIVMSG"
      then at_least params 2 s (on_privmsg highlight origin params n s)
      else if is event "NOTICE"
      then at_least params 2 s (on_notice origin params n s)
      else if is event "MODE" || is event "UMODE"
      then at_least params 1 s (tell (lit "MODE") n (origin ∷ params) s)
      else if is event "NICK"
      then at_least params 1 s (param params 0 >>= λ p. tell (lit "NICK") n (origin ∷ p ∷ []) s)
      else if is event "JOIN"
      then at_least params 1 s (param params 0 >>= λ p. tell (lit "JOIN") n (origin ∷ p ∷ []) s)
      else if is event "PART"
      then at_least params 1 s (on_texts (lit "PART") (length params == 2) origin params n s)
      else if is event "KICK"
      then at_least params 2 s (on_kick origin params n s)
      else if is event "INVITE"
      then at_least params 2 s (param params 1 >>= λ p. tell (lit "INVITE") n (origin ∷ p ∷ []) s)
      else if is event "QUIT"
      then (optional_param (length params == 1) params 0 >>= λ p.
          tell (lit "QUIT") n (origin ∷ p ∷ []) s)
      else if is event "TOPIC"
      then at_least params 1 s (on_texts (lit "TOPIC") (ltb 1 (length params)) origin params n s)
      else if is event "CONNECT"
      then tell (lit "CONNECT") n [] s
      else if is event "DISCONNECT"
      then tell (lit "DISCONNECT") n [] s
      else if is event "CTCP_REQ" || is event "CTCP"
      then at_least params 1 s
          (param params 0 >>= λ p. tell (lit "CTCP") n (origin ∷ nets.nick n ∷ p ∷ []) s)
      else if is event "CTCP_REP"
      then at_least params 1 s
          (param params 0 >>= λ p. tell (lit "CTCP_REP") n (origin ∷ nets.nick n ∷ p ∷ []) s)
      else if is event "CTCP_ACTION" || is event "ACTION"
      then at_least params 1 s (on_texts (lit "ACTION") (ltb 1 (length params)) origin params n s)
      else if is event "WHOIS"
      then at_least params 2 s (on_whois origin params n s)
      else if is event "NAMES"
      then at_least params 2 s (tell (lit "NAMES") n (origin ∷ params) s)
      else if is event "NUMERIC"
      then at_least params 1 s
          (param params 0 >>= λ p. tell (lit "NUMERIC") n (origin ∷ p ∷ params) s)
      else if is_own_event event
      then at_least params 2 s (tell event n (origin ∷ params) s)
      else if is event "PONG"
      then tell event n (origin ∷ params) s
      else (param params 0 >>= λ p. tell (lit "UNKNOWN") n (origin ∷ p ∷ event ∷ params) s)
