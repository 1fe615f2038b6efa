-- ===== src/Requests.antt =====
-- `PluginComm::handle` (src/plugincomm.cpp): the requests of the plugins. Here what a request reads
-- and changes; the actions are in the modules below, and `Requests.Handle` chooses between them.
pub mod Input
pub mod Network
pub mod Plugin
pub mod Storage
pub mod Handle
pub mod Success
pub mod Stored
pub mod Answers
pub mod Buffer
pub mod Unwritten
pub mod Replies
use dazeus_core.Base.{ℕ, Bool, true, false, not, List, [], ◌∷◌, ◌++◌, Option, none, some}
use dazeus_core.Text.{Str, lit}
use Prim.Native.String.{String}
use dazeus_core.Run.{Death}
use dazeus_core.Json.{Json, Fields, json_true, c_str, Jansson}
use dazeus_core.External.{NetworkCall}
use dazeus_core.Settings.{GlobalConfig, PluginConfig}
use dazeus_core.Socket.{SocketInfo}

-- How a call ends: it returns, throws a `std::exception` with a text, or ends the process.
pub data Outcome (A : Type 0) : Type 0 where
  returns : A → Outcome A
  throws : Str → Outcome A
  crashes : Death → Outcome A

-- The class `Database` (src/db/database.h), for a backend with the contents `D`. The scopes are in
-- the order network, receiver, sender.
pub record Database (D : Type 0) : Type 0 where
  pub property : D → Str → Str → Str → Str → D × Outcome Str
  pub set_property : D → Str → Str → Str → Str → Str → D × Outcome Unit
  pub property_keys : D → Str → Str → Str → Str → D × Outcome (List Str)
  pub has_permission : D → Str → Str → Str → Str → Bool → D × Outcome Bool
  pub unset_permission : D → Str → Str → Str → Str → D × Outcome Unit
  pub set_permission : D → Bool → Str → Str → Str → Str → D × Outcome Unit

-- What a request reads: `dazeus_->networks()`, `config_`, and how `dazeus_->reloadConfig()` ends.
pub record Bot : Type 0 where
  pub networks : List (Str × ℕ)
  pub plugins : List PluginConfig
  pub global : GlobalConfig
  pub reload : Outcome Unit

-- What a request changes: `output`, `info`, the database and the networks.
pub record Request (D : Type 0) : Type 0 where
  pub response : Fields
  pub info : SocketInfo
  pub database : D
  pub calls : List NetworkCall

abbrev pub Result : Type 0 → Type 0
Result D = Request D × Outcome Unit

module _ {D : Type 0} where
  -- `json_object_set_new(response, key, value)`
  unfoldable pub respond : Jansson → String → Option Json → Request D → Request D
  unfolding lit
  respond j key value r = record r { response = j.set_new r.response (lit key) value }

  unfoldable pub succeed : Jansson → Request D → Request D
  unfolding respond
  succeed j r = respond j "success" (some json_true) r

  -- `json_object_set_new(response, key, json_string(text.c_str()))`
  unfoldable pub respond_text : Jansson → String → Str → Request D → Request D
  unfolding respond c_str
  respond_text j key text r = respond j key (j.json_string (c_str text)) r

  abbrev pub call : NetworkCall → Request D → Request D
  call c r = record r { calls = r.calls ++ c ∷ [] }

  abbrev pub finished : Request D → Result D
  finished r = (r, returns tt)

  abbrev pub fails : Request D → String → Result D
  fails r why = (r, throws (lit why))

  -- a call of the database, and what follows if it returns
  abbrev pub after :
      {A : Type 0} → Request D → D × Outcome A → (A → Request D → Result D) → Result D
  after r (db, returns a) k = k a (record r { database = db })
  after r (db, throws why) k = (record r { database = db }, throws why)
  after r (db, crashes why) k = (record r { database = db }, crashes why)
