-- ===== src/Requests/Answers.antt =====
-- The field "success" of every answer (src/plugincomm.cpp, `handle` and the `try` around it).
use dazeus_core.Base.{ℕ, ◌≡◌, refl, ◌∙◌, Bool, true, false, List, [], ◌∷◌, some, if◌then◌else◌}
use dazeus_core.Text.{Str, lit, is, str_eq}
use dazeus_core.Run.{Yields}
use dazeus_core.External.{Utils, Networks}
use dazeus_core.Json.{Json, json_true, json_false, Jansson, JanssonLaws}
use dazeus_core.Requests.{
  Outcome, returns, throws, crashes, Database, Bot, Request, Result, respond, respond_text,
}
use dazeus_core.Socket.{RequirementInfo, did_handshake}
use dazeus_core.Requests.Input.{params_of, input_get, scope_of, action_of}
use dazeus_core.Requests.Plugin.{
  take_handshake, greet, on_handshake, on_reload, requirement_of, add_command, on_command,
  on_subscribe, on_unsubscribe,
}
use dazeus_core.Requests.Handle.{
  is_network_action, is_channel_action, perform, with_action, with_params, handle, caught,
}
use dazeus_core.Requests.Success.{
  told, Reports, says, thrown, crashed, Reports-if, succeed-Told, respond-Told, object_get-set_new,
  object_get-set_other, list_networks-Reports, on_network-Reports, on_channel-Reports,
}
use dazeus_core.Requests.Stored.{on_property-Reports, on_permission-Reports, on_config-Reports}

-- whether `handle` came to its end
abbrev pub did_return : Outcome Unit → Bool
did_return (returns _) = true
did_return _ = false

module _ {D : Type 0} (j : Jansson) (laws : JanssonLaws j) where
  greet-Reports : (params : List Str) (r : Request D) → Reports j (greet j params r)
  unfolding greet take_handshake
  greet-Reports [] r = thrown
  greet-Reports (a ∷ []) r = thrown
  greet-Reports (a ∷ b ∷ []) r = thrown
  greet-Reports (a ∷ b ∷ c ∷ []) r = thrown
  greet-Reports (a ∷ b ∷ c ∷ d ∷ more) r =
      Reports-if (is c "1") (λ _. says (succeed-Told laws r)) (λ _. thrown)

  on_handshake-Reports : (params : List Str) (r : Request D) → Reports j (on_handshake j params r)
  unfolding on_handshake
  on_handshake-Reports params r =
      Reports-if (did_handshake (respond_text j "did" (lit "handshake") r).info) (λ _. thrown)
        (λ _. greet-Reports params _)

  on_reload-Reports : (reload : Outcome Unit) (r : Request D) → Reports j (on_reload j reload r)
  unfolding on_reload
  on_reload-Reports (returns x) r = says (succeed-Told laws _)
  on_reload-Reports (throws why) r = thrown
  on_reload-Reports (crashes why) r = crashed

  add_command-Reports :
      (name : Str) (r : Request D) (o : Outcome RequirementInfo)
      → Reports j (add_command j name r o)
  add_command-Reports name r (returns q) = says (succeed-Told laws _)
  add_command-Reports name r (throws why) = thrown
  add_command-Reports name r (crashes why) = crashed

  on_command-Reports :
      (networks : List (Str × ℕ)) (params : List Str) (r : Request D)
      → Reports j (on_command j networks params r)
  unfolding on_command
  on_command-Reports networks [] r = thrown
  on_command-Reports networks (name ∷ rest) r =
      add_command-Reports name _ (requirement_of networks rest)

  subscribe-Reports :
      (u : Utils) (params : List Str) (r : Request D) → Reports j (on_subscribe u j params r)
  unfolding on_subscribe lit str_eq
  subscribe-Reports u params r = says (respond-Told laws "added" _ _ refl (succeed-Told laws _))

  unsubscribe-Reports :
      (u : Utils) (params : List Str) (r : Request D) → Reports j (on_unsubscribe u j params r)
  unfolding on_unsubscribe lit str_eq
  unsubscribe-Reports u params r = says (respond-Told laws "removed" _ _ refl (succeed-Told laws _))

module _ {D : Type 0} (u : Utils) (j : Jansson) (laws : JanssonLaws j) (nets : Networks)
    (db : Database D) (bot : Bot) where
  perform-Reports :
      (act : Str) (params scope : List Str) (r : Request D)
      → Reports j (perform u j nets db bot act params scope r)
  unfolding perform
  perform-Reports act params scope r =
      Reports-if (is act "networks") (λ _. list_networks-Reports j laws nets bot r)
        λ _.
          Reports-if (is act "handshake") (λ _. on_handshake-Reports j laws params r)
            λ _.
              Reports-if (is act "reload") (λ _. on_reload-Reports j laws bot.reload r)
                λ _.
                  Reports-if (is_network_action act)
                    (λ e. on_network-Reports j laws nets bot act params r e)
                    λ _.
                      Reports-if (is_channel_action act)
                        (λ _. on_channel-Reports u j laws nets bot.networks act params r)
                        λ _.
                          Reports-if (is act "subscribe") (λ _. subscribe-Reports j laws u params r)
                            λ _.
                              Reports-if (is act "unsubscribe")
                                (λ _. unsubscribe-Reports j laws u params r)
                                λ _.
                                  Reports-if (is act "command")
                                    (λ _. on_command-Reports j laws bot.networks params r)
                                    λ _.
                                      Reports-if (is act "property")
                                        (λ _. on_property-Reports j laws db scope params r)
                                        λ _.
                                          Reports-if (is act "config")
                                            (λ _. on_config-Reports j laws bot params r)
                                            λ _.
                                              Reports-if (is act "permission")
                                                (λ _.
                                                  on_permission-Reports j laws db scope params r)
                                                λ _. thrown

  with_action-Reports :
      (params scope : List Str) (o : Outcome Str) (r : Request D)
      → Reports j (with_action u j nets db bot params scope o r)
  with_action-Reports params scope (returns act) r = perform-Reports act params scope r
  with_action-Reports params scope (throws why) r = thrown
  with_action-Reports params scope (crashes why) r = crashed

  with_params-Reports :
      (o : Outcome (List Str)) (input : Json) (r : Request D)
      → Reports j (with_params u j nets db bot o input r)
  with_params-Reports (returns params) input r =
      with_action-Reports params (scope_of (input_get j input (lit "scope")))
        (action_of (input_get j input (lit "get")) (input_get j input (lit "do"))) r
  with_params-Reports (throws why) input r = thrown
  with_params-Reports (crashes why) input r = crashed

  handle-Reports : (input : Json) (r : Request D) → Reports j (handle u j nets db bot input r)
  unfolding handle
  handle-Reports input r =
      with_params-Reports (params_of (input_get j input (lit "params"))) input r

  caught-Reports :
      (m : Result D)
      → Reports j m
      → Yields
          (λ r.
            j.object_get r.response (lit "success")
            ≡ some (if did_return m.1 then json_true else json_false))
          (caught u j nets db bot m)
  unfolding caught lit str_eq respond respond_text
  caught-Reports (r, returns x) (says (told t)) = t
  caught-Reports (r, throws why) h =
      object_get-set_other laws _ _ (lit "success") _ refl
      ∙ object_get-set_new laws r.response (lit "success") json_false
  caught-Reports (r, crashes why) h = tt

  -- The field "success" of the answer to a request is true if `handle` returned, and false if it
  -- threw an exception. (It is there in both cases.)
  pub handle_lem :
      (input : Json) (r : Request D)
      → Yields
          (λ s.
            j.object_get s.response (lit "success")
            ≡ some
                (if did_return (handle u j nets db bot input r).1 then json_true else json_false))
          (caught u j nets db bot (handle u j nets db bot input r))
  handle_lem input r = caught-Reports (handle u j nets db bot input r) (handle-Reports input r)
