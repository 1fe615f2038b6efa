-- ===== src/Requests/Storage.antt =====
-- The requests for properties, the configuration and permissions (src/plugincomm.cpp, `handle`).
use dazeus_core.Base.{Bool, not, ◌||◌, List, [], ◌∷◌, Option, none, some, if◌then◌else◌, is_empty}
use dazeus_core.Text.{Str, str_eq, lit, is}
use dazeus_core.Run.{undefined_behaviour}
use dazeus_core.Map
use dazeus_core.Settings.{GlobalConfig, PluginConfig}
use dazeus_core.Socket.{did_handshake}
use dazeus_core.Json.{json_true, json_false, json_array, no_items, append_strings, Jansson}
use dazeus_core.Requests.{
  crashes, Database, Bot, Request, Result, respond, respond_text, succeed, finished, fails, after,
}

-- network, receiver and sender of a scope
abbrev pub Scope : Type 0
Scope = Str × Str × Str

-- the switch over `scope.size()`: a longer scope counts as none
unfoldable pub property_scope : List Str → Scope
property_scope (network ∷ []) = (network, [], [])
property_scope (network ∷ receiver ∷ []) = (network, receiver, [])
property_scope (network ∷ receiver ∷ sender ∷ []) = (network, receiver, sender)
property_scope _ = ([], [], [])

unfoldable pub permission_scope : List Str → Option Scope
permission_scope [] = none
permission_scope (network ∷ []) = some (network, [], [])
permission_scope (network ∷ channel ∷ []) = some (network, channel, [])
permission_scope (network ∷ channel ∷ sender ∷ _) = some (network, channel, sender)

abbrev is_yes : Str → Bool
is_yes s = is s "true" || is s "1"

module _ {D : Type 0} (j : Jansson) (db : Database D) where
  unfoldable pub answer_property : Str → Str → Request D → Result D
  answer_property variable value r =
      let t = respond_text j "variable" variable (succeed j r) in
      if is_empty value then finished t else finished (respond_text j "value" value t)

  unfoldable pub get_property : Scope → Str → Request D → Result D
  get_property (network, receiver, sender) variable r =
      after r (db.property r.database variable network receiver sender) (answer_property variable)

  unfoldable pub set_property : Scope → Str → Str → Request D → Result D
  set_property (network, receiver, sender) variable value r =
      after r (db.set_property r.database variable value network receiver sender)
        (λ _ s. finished (succeed j s))

  unfoldable pub list_keys : Scope → Str → Request D → Result D
  list_keys (network, receiver, sender) prefix r =
      after r (db.property_keys r.database prefix network receiver sender) (λ keys s.
        finished
          (succeed j (respond j "keys" (some (json_array (append_strings j no_items keys))) s)))

  -- `property set`, from the parameters after the variable's name
  unfoldable pub set_given : Scope → Str → List Str → Request D → Result D
  set_given scope variable [] r = fails r "Missing parameters"
  set_given scope variable (value ∷ _) r = set_property scope variable value r

  unfoldable pub use_property : Scope → List Str → Request D → Result D
  use_property scope (op ∷ variable ∷ rest) r =
      if is op "get"
      then get_property scope variable r
      else if is op "set"
      then set_given scope variable rest r
      else if is op "unset"
      then set_property scope variable [] r
      else if is op "keys"
      then list_keys scope variable r
      else fails r "Did not understand request"
  use_property scope _ r = fails r "Missing parameters"

  -- `property`
  unfoldable pub on_property : List Str → List Str → Request D → Result D
  on_property scope params r =
      use_property (property_scope scope) params (respond_text j "did" (lit "property") r)

  -- `permission set` reads its third parameter without a test
  unfoldable pub set_permission : Scope → Str → List Str → Request D → Result D
  set_permission scope name [] r = (r, crashes undefined_behaviour)
  set_permission (network, channel, sender) name (value ∷ _) r =
      after r (db.set_permission r.database (is_yes value) name network channel sender)
        (λ _ s. finished (succeed j s))

  unfoldable pub unset_permission : Scope → Str → Request D → Result D
  unset_permission (network, channel, sender) name r =
      after r (db.unset_permission r.database name network channel sender)
        (λ _ s. finished (succeed j s))

  unfoldable pub has_permission : Scope → Str → List Str → Request D → Result D
  has_permission scope name [] r = fails r "Missing parameters"
  has_permission (network, channel, sender) name (value ∷ _) r =
      after r (db.has_permission r.database name network channel sender (is_yes value)) (λ b s.
        finished
          (respond j "has_permission" (some (if b then json_true else json_false)) (succeed j s)))

  unfoldable pub use_permission : Scope → List Str → Request D → Result D
  use_permission scope (op ∷ name ∷ rest) r =
      if is op "set"
      then set_permission scope name rest r
      else if is op "unset"
      then unset_permission scope name r
      else if is op "has"
      then has_permission scope name rest r
      else fails r "Did not understand request"
  use_permission scope _ r = fails r "Missing parameters"

  abbrev pub scoped_permission : Option Scope → List Str → Request D → Result D
  scoped_permission none params r = fails r "Missing scope"
  scoped_permission (some scope) params r = use_permission scope params r

  -- `permission`
  unfoldable pub on_permission : List Str → List Str → Request D → Result D
  on_permission scope params r =
      scoped_permission (permission_scope scope) params (respond_text j "did" (lit "permission") r)

-- the loop over the plugins' sections: the first of the group that has the variable
unfoldable pub plugin_value : Str → Str → List PluginConfig → Option Str
plugin_value group variable [] = none
plugin_value group variable (pc ∷ rest) =
    let later = plugin_value group variable rest in
    if str_eq pc.name group
    then elim (Map.find variable pc.config) [ none ↦ later | some value ↦ some value ]
    else later

unfoldable pub core_value : GlobalConfig → Str → Option Str
core_value global variable =
    if is variable "nickname"
    then some global.default_nickname
    else if is variable "username"
    then some global.default_username
    else if is variable "fullname"
    then some global.default_fullname
    else if is variable "highlight"
    then some global.highlight
    else none

module _ {D : Type 0} (j : Jansson) (bot : Bot) where
  abbrev pub with_value : Option Str → Request D → Request D
  with_value none r = r
  with_value (some value) r = respond_text j "value" value r

  abbrev pub describe : Str → Str → Request D → Request D
  describe group variable r =
      respond_text j "variable" variable (respond_text j "group" group (succeed j r))

  unfoldable pub look_up : Str → Str → Request D → Result D
  look_up group variable r =
      if is group "plugin"
      then (if not (did_handshake r.info)
          then fails r "Need to do a handshake for retrieving plugin configuration"
          else finished (
              with_value (plugin_value r.info.config_group variable bot.plugins)
                (describe group variable r)))
      else if is group "core"
      then finished (with_value (core_value bot.global variable) (describe group variable r))
      else fails r "Unrecognised config group"

  -- `config`
  unfoldable pub on_config : List Str → Request D → Result D
  on_config (group ∷ variable ∷ []) r =
      look_up group variable (respond_text j "got" (lit "config") r)
  on_config _ r = fails (respond_text j "got" (lit "config") r) "Missing parameters"
