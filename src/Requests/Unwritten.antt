-- ===== src/Requests/Unwritten.antt =====
-- The write buffer of a plugin while `PluginComm::handle` runs (src/plugincomm.cpp).
use dazeus_core.Base.{not, ◌||◌, List, [], ◌∷◌, Option, none, some, if◌then◌else◌, is_empty}
use dazeus_core.Text.{Str, lit, is}
use dazeus_core.External.{Utils, Networks}
use dazeus_core.Json.{Json, Jansson}
use dazeus_core.Socket.{did_handshake}
use dazeus_core.Requests.{
  Outcome, returns, throws, crashes, Database, Bot, Request, respond, respond_text, succeed,
  finished,
}
use dazeus_core.Requests.Input.{params_of, input_get, scope_of, action_of}
use dazeus_core.Requests.Storage.{
  Scope, answer_property, get_property, set_property, list_keys, set_given, use_property,
  on_property, set_permission, unset_permission, has_permission, use_permission, permission_scope,
  scoped_permission, on_permission, look_up, plugin_value, core_value, with_value, describe,
  on_config,
}
use dazeus_core.Requests.Handle.{
  is_network_action, is_channel_action, perform, with_action, with_params, handle,
}
use dazeus_core.Json.{json_array, no_items, append_strings, json_true, json_false}
use dazeus_core.Requests.Buffer.{
  Keeps, keeps, Keeps-if, Keeps-after, IsSame, list_networks-Keeps, on_network-Keeps,
  on_channel-Keeps, on_handshake-Keeps, on_reload-Keeps, on_command-Keeps, on_subscribe-Keeps,
  on_unsubscribe-Keeps,
}

module _ {D : Type 0} (j : Jansson) (db : Database D) (w : Str) where
  answer_property-Keeps :
      (k value : Str) (r : Request D) → IsSame w r → Keeps w (answer_property j db k value r)
  unfolding answer_property respond_text succeed respond
  answer_property-Keeps k value r e = Keeps-if (is_empty value) (keeps e) (keeps e)

  get_property-Keeps :
      (scope : Scope) (k : Str) (r : Request D) → IsSame w r → Keeps w (get_property j db scope k r)
  unfolding get_property
  get_property-Keeps (a, b, c) k r e =
      Keeps-after r (db.property r.database k a b c) (answer_property j db k) e
        (answer_property-Keeps k)

  set_property-Keeps :
      (scope : Scope) (k v : Str) (r : Request D)
      → IsSame w r
      → Keeps w (set_property j db scope k v r)
  unfolding set_property succeed respond
  set_property-Keeps (a, b, c) k v r e =
      Keeps-after r (db.set_property r.database k v a b c) (λ _ s. finished (succeed j s)) e
        (λ _ s h. keeps h)

  list_keys-Keeps :
      (scope : Scope) (k : Str) (r : Request D) → IsSame w r → Keeps w (list_keys j db scope k r)
  unfolding list_keys succeed respond
  list_keys-Keeps (a, b, c) k r e =
      Keeps-after r (db.property_keys r.database k a b c)
        (λ keys s.
          finished
            (succeed j (respond j "keys" (some (json_array (append_strings j no_items keys))) s)))
        e (λ _ s h. keeps h)

  set_given-Keeps :
      (scope : Scope) (k : Str) (rest : List Str) (r : Request D)
      → IsSame w r
      → Keeps w (set_given j db scope k rest r)
  unfolding set_given
  set_given-Keeps scope k [] r e = keeps e
  set_given-Keeps scope k (v ∷ rest) r e = set_property-Keeps scope k v r e

  on_property-Keeps :
      (scope params : List Str) (r : Request D)
      → IsSame w r
      → Keeps w (on_property j db scope params r)
  unfolding on_property use_property respond_text respond
  on_property-Keeps scope [] r e = keeps e
  on_property-Keeps scope (op ∷ []) r e = keeps e
  on_property-Keeps scope (op ∷ k ∷ rest) r e =
      Keeps-if (is op "get") (get_property-Keeps _ k _ e) (
        Keeps-if (is op "set") (set_given-Keeps _ k rest _ e) (
          Keeps-if (is op "unset") (set_property-Keeps _ k [] _ e)
            (Keeps-if (is op "keys") (list_keys-Keeps _ k _ e) (keeps e))))

  set_permission-Keeps :
      (scope : Scope) (k : Str) (rest : List Str) (r : Request D)
      → IsSame w r
      → Keeps w (set_permission j db scope k rest r)
  unfolding set_permission succeed respond
  set_permission-Keeps scope k [] r e = keeps e
  set_permission-Keeps (a, b, c) k (v ∷ rest) r e =
      Keeps-after r (db.set_permission r.database (is v "true" || is v "1") k a b c)
        (λ _ s. finished (succeed j s)) e (λ _ s h. keeps h)

  unset_permission-Keeps :
      (scope : Scope) (k : Str) (r : Request D)
      → IsSame w r
      → Keeps w (unset_permission j db scope k r)
  unfolding unset_permission succeed respond
  unset_permission-Keeps (a, b, c) k r e =
      Keeps-after r (db.unset_permission r.database k a b c) (λ _ s. finished (succeed j s)) e
        (λ _ s h. keeps h)

  has_permission-Keeps :
      (scope : Scope) (k : Str) (rest : List Str) (r : Request D)
      → IsSame w r
      → Keeps w (has_permission j db scope k rest r)
  unfolding has_permission succeed respond
  has_permission-Keeps scope k [] r e = keeps e
  has_permission-Keeps (a, b, c) k (v ∷ rest) r e =
      Keeps-after r (db.has_permission r.database k a b c (is v "true" || is v "1"))
        (λ b s.
          finished
            (respond j "has_permission" (some (if b then json_true else json_false)) (succeed j s)))
        e (λ _ s h. keeps h)

  scoped_permission-Keeps :
      (o : Option Scope) (params : List Str) (r : Request D)
      → IsSame w r
      → Keeps w (scoped_permission j db o params r)
  unfolding use_permission
  scoped_permission-Keeps none params r e = keeps e
  scoped_permission-Keeps (some scope) [] r e = keeps e
  scoped_permission-Keeps (some scope) (op ∷ []) r e = keeps e
  scoped_permission-Keeps (some scope) (op ∷ k ∷ rest) r e =
      Keeps-if (is op "set") (set_permission-Keeps scope k rest r e) (
        Keeps-if (is op "unset") (unset_permission-Keeps scope k r e)
          (Keeps-if (is op "has") (has_permission-Keeps scope k rest r e) (keeps e)))

  on_permission-Keeps :
      (scope params : List Str) (r : Request D)
      → IsSame w r
      → Keeps w (on_permission j db scope params r)
  unfolding on_permission respond_text respond
  on_permission-Keeps scope params r e = scoped_permission-Keeps (permission_scope scope) params _ e

module _ {D : Type 0} (j : Jansson) (bot : Bot) (w : Str) where
  with_value-Keeps :
      (o : Option Str) (group variable : Str) (r : Request D)
      → IsSame w r
      → Keeps w (with_value j bot o (describe j bot group variable r), returns tt)
  unfolding respond_text succeed respond
  with_value-Keeps none group variable r e = keeps e
  with_value-Keeps (some v) group variable r e = keeps e

  look_up-Keeps :
      (group variable : Str) (r : Request D) → IsSame w r → Keeps w (look_up j bot group variable r)
  unfolding look_up
  look_up-Keeps group variable r e =
      Keeps-if (is group "plugin")
        (Keeps-if (not (did_handshake r.info)) (keeps e) (
          with_value-Keeps (plugin_value r.info.config_group variable bot.plugins) group variable r
            e))
        (Keeps-if (is group "core")
          (with_value-Keeps (core_value bot.global variable) group variable r e) (keeps e))

  on_config-Keeps :
      (params : List Str) (r : Request D) → IsSame w r → Keeps w (on_config j bot params r)
  unfolding on_config respond_text respond
  on_config-Keeps [] r e = keeps e
  on_config-Keeps (a ∷ []) r e = keeps e
  on_config-Keeps (a ∷ b ∷ []) r e = look_up-Keeps a b _ e
  on_config-Keeps (a ∷ b ∷ c ∷ more) r e = keeps e

module _ {D : Type 0} (u : Utils) (j : Jansson) (nets : Networks) (db : Database D)
    (bot : Bot) where
  perform-Keeps :
      (w act : Str) (params scope : List Str) (r : Request D)
      → IsSame w r
      → Keeps w (perform u j nets db bot act params scope r)
  unfolding perform
  perform-Keeps w act params scope r e =
      Keeps-if (is act "networks") (list_networks-Keeps j nets bot w r e) (
        Keeps-if (is act "handshake") (on_handshake-Keeps j w params r e) (
          Keeps-if (is act "reload") (on_reload-Keeps j w bot.reload r e) (
            Keeps-if (is_network_action act) (on_network-Keeps j nets bot w act params r e) (
              Keeps-if (is_channel_action act)
                (on_channel-Keeps u j nets w bot.networks act params r e)
                (Keeps-if (is act "subscribe") (on_subscribe-Keeps j w u params r e) (
                  Keeps-if (is act "unsubscribe") (on_unsubscribe-Keeps j w u params r e) (
                    Keeps-if (is act "command") (on_command-Keeps j w bot.networks params r e) (
                      Keeps-if (is act "property") (on_property-Keeps j db w scope params r e) (
                        Keeps-if (is act "config") (on_config-Keeps j bot w params r e) (
                          Keeps-if (is act "permission")
                            (on_permission-Keeps j db w scope params r e) (keeps e)))))))))))

  with_action-Keeps :
      (w : Str) (params scope : List Str) (o : Outcome Str) (r : Request D)
      → IsSame w r
      → Keeps w (with_action u j nets db bot params scope o r)
  with_action-Keeps w params scope (returns act) r e = perform-Keeps w act params scope r e
  with_action-Keeps w params scope (throws why) r e = keeps e
  with_action-Keeps w params scope (crashes why) r e = keeps e

  with_params-Keeps :
      (w : Str) (o : Outcome (List Str)) (input : Json) (r : Request D)
      → IsSame w r
      → Keeps w (with_params u j nets db bot o input r)
  with_params-Keeps w (returns params) input r e =
      with_action-Keeps w params (scope_of (input_get j input (lit "scope")))
        (action_of (input_get j input (lit "get")) (input_get j input (lit "do"))) r e
  with_params-Keeps w (throws why) input r e = keeps e
  with_params-Keeps w (crashes why) input r e = keeps e

  pub handle-Keeps :
      (w : Str) (input : Json) (r : Request D)
      → IsSame w r
      → Keeps w (handle u j nets db bot input r)
  unfolding handle
  handle-Keeps w input r e =
      with_params-Keeps w (params_of (input_get j input (lit "params"))) input r e
