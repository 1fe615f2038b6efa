-- ===== src/Requests/Stored.antt =====
-- The field "success" in the answers to the requests for properties, permissions and the
-- configuration (src/plugincomm.cpp, `handle`).
use dazeus_core.Base.{refl, not, List, [], ◌∷◌, Option, none, some, is_empty}
use dazeus_core.Text.{Str, lit, is, str_eq}
use dazeus_core.Json.{Jansson, JanssonLaws}
use dazeus_core.Requests.{returns, Database, Bot, Request, succeed}
use dazeus_core.Socket.{did_handshake}
use dazeus_core.Requests.Storage.{
  Scope, answer_property, get_property, set_property, list_keys, set_given, use_property,
  on_property, set_permission, unset_permission, has_permission, use_permission, permission_scope,
  scoped_permission, on_permission, look_up, plugin_value, core_value, with_value, describe,
  on_config,
}
use dazeus_core.Requests.Success.{
  Reports, says, thrown, crashed, Reports-if, Reports-after, succeed-Told, respond-Told,
  respond_text-Told,
}

module _ {D : Type 0} (j : Jansson) (laws : JanssonLaws j) (db : Database D) where
  answer_property-Reports :
      (k value : Str) (r : Request D) → Reports j (answer_property j db k value r)
  unfolding answer_property lit str_eq
  answer_property-Reports k value r =
      let described =
        respond_text-Told laws "variable" k (succeed j r) refl (succeed-Told laws r) in
      Reports-if (is_empty value) (λ _. says described)
        (λ _. says (respond_text-Told laws "value" value _ refl described))

  get_property-Reports :
      (scope : Scope) (k : Str) (r : Request D) → Reports j (get_property j db scope k r)
  unfolding get_property
  get_property-Reports (a, b, c) k r =
      Reports-after r (db.property r.database k a b c) (answer_property j db k)
        (answer_property-Reports k)

  set_property-Reports :
      (scope : Scope) (k v : Str) (r : Request D) → Reports j (set_property j db scope k v r)
  unfolding set_property
  set_property-Reports (a, b, c) k v r = Reports-after r _ _ (λ _ s. says (succeed-Told laws s))

  list_keys-Reports :
      (scope : Scope) (k : Str) (r : Request D) → Reports j (list_keys j db scope k r)
  unfolding list_keys
  list_keys-Reports (a, b, c) k r = Reports-after r _ _ (λ _ s. says (succeed-Told laws _))

  set_given-Reports :
      (scope : Scope) (k : Str) (rest : List Str) (r : Request D)
      → Reports j (set_given j db scope k rest r)
  unfolding set_given
  set_given-Reports scope k [] r = thrown
  set_given-Reports scope k (v ∷ rest) r = set_property-Reports scope k v r

  pub on_property-Reports :
      (scope params : List Str) (r : Request D) → Reports j (on_property j db scope params r)
  unfolding on_property use_property
  on_property-Reports scope [] r = thrown
  on_property-Reports scope (op ∷ []) r = thrown
  on_property-Reports scope (op ∷ k ∷ rest) r =
      Reports-if (is op "get") (λ _. get_property-Reports _ k _)
        λ _.
          Reports-if (is op "set") (λ _. set_given-Reports _ k rest _)
            λ _.
              Reports-if (is op "unset") (λ _. set_property-Reports _ k [] _)
                λ _. Reports-if (is op "keys") (λ _. list_keys-Reports _ k _) λ _. thrown

  set_permission-Reports :
      (scope : Scope) (k : Str) (rest : List Str) (r : Request D)
      → Reports j (set_permission j db scope k rest r)
  unfolding set_permission
  set_permission-Reports scope k [] r = crashed
  set_permission-Reports (a, b, c) k (v ∷ rest) r =
      Reports-after r _ _ (λ _ s. says (succeed-Told laws s))

  unset_permission-Reports :
      (scope : Scope) (k : Str) (r : Request D) → Reports j (unset_permission j db scope k r)
  unfolding unset_permission
  unset_permission-Reports (a, b, c) k r = Reports-after r _ _ (λ _ s. says (succeed-Told laws s))

  has_permission-Reports :
      (scope : Scope) (k : Str) (rest : List Str) (r : Request D)
      → Reports j (has_permission j db scope k rest r)
  unfolding has_permission lit str_eq
  has_permission-Reports scope k [] r = thrown
  has_permission-Reports (a, b, c) k (v ∷ rest) r =
      Reports-after r _ _
        (λ _ s. says (respond-Told laws "has_permission" _ _ refl (succeed-Told laws s)))

  use_permission-Reports :
      (scope : Scope) (params : List Str) (r : Request D)
      → Reports j (use_permission j db scope params r)
  unfolding use_permission
  use_permission-Reports scope [] r = thrown
  use_permission-Reports scope (op ∷ []) r = thrown
  use_permission-Reports scope (op ∷ k ∷ rest) r =
      Reports-if (is op "set") (λ _. set_permission-Reports scope k rest r)
        λ _.
          Reports-if (is op "unset") (λ _. unset_permission-Reports scope k r)
            λ _. Reports-if (is op "has") (λ _. has_permission-Reports scope k rest r) λ _. thrown

  scoped_permission-Reports :
      (o : Option Scope) (params : List Str) (r : Request D)
      → Reports j (scoped_permission j db o params r)
  scoped_permission-Reports none params r = thrown
  scoped_permission-Reports (some scope) params r = use_permission-Reports scope params r

  pub on_permission-Reports :
      (scope params : List Str) (r : Request D) → Reports j (on_permission j db scope params r)
  unfolding on_permission
  on_permission-Reports scope params r = scoped_permission-Reports (permission_scope scope) params _

module _ {D : Type 0} (j : Jansson) (laws : JanssonLaws j) (bot : Bot) where
  with_value-Reports :
      (o : Option Str) (group variable : Str) (r : Request D)
      → Reports j (with_value j bot o (describe j bot group variable r), returns tt)
  unfolding lit str_eq
  with_value-Reports none group variable r = says (
      respond_text-Told laws "variable" _ _ refl
        (respond_text-Told laws "group" _ _ refl (succeed-Told laws r)))
  with_value-Reports (some v) group variable r = says (
      respond_text-Told laws "value" _ _ refl (
        respond_text-Told laws "variable" _ _ refl
          (respond_text-Told laws "group" _ _ refl (succeed-Told laws r))))

  look_up-Reports :
      (group variable : Str) (r : Request D) → Reports j (look_up j bot group variable r)
  unfolding look_up
  look_up-Reports group variable r =
      Reports-if (is group "plugin")
        (λ _.
          Reports-if (not (did_handshake r.info)) (λ _. thrown)
            (λ _.
              with_value-Reports (plugin_value r.info.config_group variable bot.plugins) group
                variable r))
        λ _.
          Reports-if (is group "core")
            (λ _. with_value-Reports (core_value bot.global variable) group variable r)
            (λ _. thrown)

  pub on_config-Reports : (params : List Str) (r : Request D) → Reports j (on_config j bot params r)
  unfolding on_config
  on_config-Reports [] r = thrown
  on_config-Reports (a ∷ []) r = thrown
  on_config-Reports (a ∷ b ∷ []) r = look_up-Reports a b _
  on_config-Reports (a ∷ b ∷ c ∷ more) r = thrown
