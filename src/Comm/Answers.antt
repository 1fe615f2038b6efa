-- ===== src/Comm/Answers.antt =====
-- The parameters that `ircEvent` reads (src/plugincomm.cpp).
use dazeus_core.Base.{
  ℕ, zero, suc, ◌≡◌, Bool, true, false, not, ◌&&◌, ◌||◌, List, [], ◌∷◌, arith, ltb, ◌==◌, length,
}
use dazeus_core.Text.{Str, is}
use dazeus_core.External.{Utils, Networks}
use dazeus_core.Json.{Jansson}
use dazeus_core.Run.{Run, ◌>>=◌, Gives, gives, Gives-bind, Gives-if}
use dazeus_core.Comm.{Comm}
use dazeus_core.Comm.Events.{
  param, at_least, optional_param, on_notice, on_kick, on_texts, is_own_event, irc_event,
}

abbrev Any {ℓ} : {A : Type ℓ} → A → Type 0
Any a = Unit

param-Gives :
    (params : List Str) (i : ℕ) → ltb (length params) (suc i) ≡ false → Gives Any (param params i)
unfolding param
param-Gives [] i h = ground arith
param-Gives (p ∷ ps) zero h = gives tt
param-Gives (p ∷ ps) (suc i) h = param-Gives ps i (ground arith)

at_least-Gives :
    (params : List Str) (k : ℕ) (s : Comm) (rest : Run Comm)
    → (ltb (length params) k ≡ false → Gives Any rest)
    → Gives Any (at_least params k s rest)
unfolding at_least
at_least-Gives params k s rest h = Gives-if (ltb (length params) k) (λ _. gives tt) h

optional_param-Gives :
    (b : Bool) (params : List Str) (i : ℕ)
    → (b ≡ true → ltb (length params) (suc i) ≡ false)
    → Gives Any (optional_param b params i)
unfolding optional_param
optional_param-Gives b params i h = Gives-if b (λ e. param-Gives params i (h e)) (λ _. gives tt)

-- the events that `ircEvent` tells apart
unfoldable pub is_named : Str → Bool
unfolding is_own_event
is_named event =
    is event "PRIVMSG"
    || is event "NOTICE"
    || (is event "MODE" || is event "UMODE")
    || is event "NICK"
    || is event "JOIN"
    || is event "PART"
    || is event "KICK"
    || is event "INVITE"
    || is event "QUIT"
    || is event "TOPIC"
    || is event "CONNECT"
    || is event "DISCONNECT"
    || (is event "CTCP_REQ" || is event "CTCP")
    || is event "CTCP_REP"
    || (is event "CTCP_ACTION" || is event "ACTION")
    || is event "WHOIS"
    || is event "NAMES"
    || is event "NUMERIC"
    || is_own_event event
    || is event "PONG"

module _ (u : Utils) (j : Jansson) (nets : Networks) where
  on_notice-Gives :
      (origin : Str) (params : List Str) (n : ℕ) (s : Comm)
      → ltb (length params) 2 ≡ false
      → Gives Any (on_notice u j nets origin params n s)
  unfolding on_notice
  on_notice-Gives origin params n s h =
      Gives-bind (param-Gives params 0 (ground arith))
        (λ r _. Gives-bind (param-Gives params 1 h) (λ m _. gives tt))

  on_kick-Gives :
      (origin : Str) (params : List Str) (n : ℕ) (s : Comm)
      → ltb (length params) 2 ≡ false
      → Gives Any (on_kick u j nets origin params n s)
  unfolding on_kick
  on_kick-Gives origin params n s h = Gives-bind (param-Gives params 1 h) (λ nick _.
      Gives-bind (optional_param-Gives (length params == 3) params 2 (λ e. ground arith))
        (λ m _. Gives-bind (param-Gives params 0 (ground arith)) (λ r _. gives tt)))

  on_texts-Gives :
      (event : Str) (b : Bool) (origin : Str) (params : List Str) (n : ℕ) (s : Comm)
      → (b ≡ true → ltb (length params) 2 ≡ false)
      → ltb (length params) 1 ≡ false
      → Gives Any (on_texts u j nets event b origin params n s)
  unfolding on_texts
  on_texts-Gives event b origin params n s there h =
      Gives-bind (optional_param-Gives b params 1 there)
        (λ m _. Gives-bind (param-Gives params 0 h) (λ r _. gives tt))

  -- `ircEvent` returns, and so it reads no parameter that is not there, for an event of a network that
  -- is one that it names or that has a parameter; but for a PRIVMSG or a WHOIS with two parameters or
  -- more, where the queue of commands may be flushed.
  pub irc_event-Gives :
      (highlight event origin : Str) (params : List Str) (n : ℕ) (s : Comm)
      → (n == 0) ≡ false
      → ((is event "PRIVMSG" || is event "WHOIS") && not (ltb (length params) 2)) ≡ false
      → (is_named event || not (ltb (length params) 1)) ≡ true
      → Gives Any (irc_event u j nets highlight event origin params n s)
  unfolding irc_event is_named
  irc_event-Gives highlight event origin params n s there short known =
      Gives-if (n == 0) (λ e. absurd (ground arith))
        λ e0.
          Gives-if (is event "PRIVMSG")
            (λ e. at_least-Gives params 2 s _ (λ h. absurd (ground arith)))
            λ e1.
              Gives-if (is event "NOTICE")
                (λ _. at_least-Gives params 2 s _ (on_notice-Gives origin params n s))
                λ e2.
                  Gives-if (is event "MODE" || is event "UMODE")
                    (λ _. at_least-Gives params 1 s _ (λ _. gives tt))
                    λ e3.
                      Gives-if (is event "NICK") (λ _. first (λ p. gives tt))
                        λ e4.
                          Gives-if (is event "JOIN") (λ _. first (λ p. gives tt))
                            λ e5.
                              Gives-if (is event "PART")
                                (λ _. at_least-Gives params 1 s _ (
                                  on_texts-Gives _ (length params == 2) origin params n s
                                    (λ e. ground arith)))
                                λ e6.
                                  Gives-if (is event "KICK")
                                    (λ _.
                                      at_least-Gives params 2 s _ (on_kick-Gives origin params n s))
                                    λ e7.
                                      Gives-if (is event "INVITE")
                                        (λ _. at_least-Gives params 2 s _ (λ h.
                                          Gives-bind (param-Gives params 1 h) (λ p _. gives tt)))
                                        λ e8.
                                          Gives-if (is event "QUIT")
                                            (λ _.
                                              Gives-bind
                                                (optional_param-Gives (length params == 1) params 0
                                                  (λ e. ground arith))
                                                (λ p _. gives tt))
                                            λ e9.
                                              Gives-if (is event "TOPIC")
                                                (λ _. at_least-Gives params 1 s _ (
                                                  on_texts-Gives _ (ltb 1 (length params)) origin
                                                    params n s (λ e. ground arith)))
                                                λ e10.
                                                  Gives-if (is event "CONNECT") (λ _. gives tt)
                                                    λ e11.
                                                      Gives-if (is event "DISCONNECT")
                                                        (λ _. gives tt)
                                                        λ e12.
                                                          Gives-if
                                                            (is event "CTCP_REQ" || is event "CTCP")
                                                            (λ _. first (λ p. gives tt))
                                                            λ e13.
                                                            Gives-if (is event "CTCP_REP")
                                                            (λ _. first (λ p. gives tt))
                                                            λ e14.
                                                            Gives-if
                                                            (is event "CTCP_ACTION"
                                                            || is event "ACTION")
                                                            (λ _. at_least-Gives params 1 s _ (
                                                            on_texts-Gives _ (ltb 1 (length params))
                                                            origin params n s (λ e. ground arith)))
                                                            λ e15.
                                                            Gives-if (is event "WHOIS")
                                                            (λ e.
                                                            at_least-Gives params 2 s _
                                                            (λ h. absurd (ground arith)))
                                                            λ e16.
                                                            Gives-if (is event "NAMES")
                                                            (λ _.
                                                            at_least-Gives params 2 s _
                                                            (λ _. gives tt))
                                                            λ e17.
                                                            Gives-if (is event "NUMERIC")
                                                            (λ _. first (λ p. gives tt))
                                                            λ e18.
                                                            Gives-if (is_own_event event)
                                                            (λ _.
                                                            at_least-Gives params 2 s _
                                                            (λ _. gives tt))
                                                            λ e19.
                                                            Gives-if (is event "PONG")
                                                            (λ _. gives tt)
                                                            λ e20.
                                                            Gives-bind
                                                            (param-Gives params 0 (ground arith))
                                                            (λ p _. gives tt)
    where
      first :
          {f : Str → Run Comm}
          → ((p : Str) → Gives Any (f p))
          → Gives Any (at_least params 1 s (param params 0 >>= f))
      first k = at_least-Gives params 1 s _ (λ h. Gives-bind (param-Gives params 0 h) (λ p _. k p))
