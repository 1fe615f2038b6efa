-- ===== src/Requests/Input.antt =====
-- The parameters, the scope and the action of a request (src/plugincomm.cpp, the head of `handle`).
use dazeus_core.Base.{ℕ, suc, ◌+◌, List, [], ◌∷◌, ◌++◌, Option, none, some}
use dazeus_core.Text.{Str, lit}
use dazeus_core.Text.Decimal.{decimal}
use dazeus_core.Int.{ℤ, pos, negsuc}
use dazeus_core.Json.{
  Json, json_true, json_false, json_integer, json_real, json_text, json_array, json_object, Items,
  no_items, item, c_str, Jansson,
}
use dazeus_core.Requests.{Outcome, returns, throws}

-- a number as a stream prints it
unfoldable pub integer_text : ℤ → Str
integer_text (pos n) = decimal n
integer_text (negsuc n) = lit "-" ++ decimal (suc n)

-- `input.object_get`: NULL on what is no object
unfoldable pub input_get : Jansson → Json → Str → Option Json
input_get j (json_object fs) k = j.object_get fs k
input_get j _ k = none

-- the body of the loop over the parameters; a NULL stands for the `default` of the switch
unfoldable pub param_text : Json → Option Str
param_text (json_text s) = some (c_str s)
param_text (json_integer n) = some (integer_text n)
param_text (json_real s) = some s
param_text json_true = some (lit "true")
param_text json_false = some (lit "false")
param_text _ = none

abbrev unsupported : ℕ → Str
unsupported i = lit "Parameter " ++ (decimal i ++ lit " is of an unsupported type")

abbrev with_param : ℕ → Option Str → Outcome (List Str) → Outcome (List Str)
with_param i none rest = throws (unsupported i)
with_param i (some p) (returns ps) = returns (p ∷ ps)
with_param i (some p) rest = rest

-- the loop, from the parameter with the number `i`
unfoldable pub read_params : ℕ → Items → Outcome (List Str)
unfolding param_text
read_params i no_items = returns []
read_params i (item v vs) = with_param i (param_text v) (read_params (i + 1) vs)

unfoldable pub params_of : Option Json → Outcome (List Str)
unfolding read_params
params_of none = returns []
params_of (some (json_array vs)) = read_params 0 vs
params_of (some _) = throws (lit "Parameters are of the wrong type")

unfoldable pub scope_text : Json → Str
scope_text (json_text s) = c_str s
scope_text _ = []

unfoldable pub read_scope : Items → List Str
unfolding scope_text
read_scope no_items = []
read_scope (item v vs) = scope_text v ∷ read_scope vs

unfoldable pub scope_of : Option Json → List Str
unfolding read_scope
scope_of (some (json_array vs)) = read_scope vs
scope_of _ = []

-- `action`, from the value for "get", or else from the one for "do"
unfoldable pub action_of : Option Json → Option Json → Outcome Str
action_of none none = returns []
action_of none (some (json_text s)) = returns (c_str s)
action_of none (some _) = throws (lit "Action is of the wrong type")
action_of (some (json_text s)) _ = returns (c_str s)
action_of (some _) _ = throws (lit "Action is of the wrong type")
