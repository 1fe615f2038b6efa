-- ===== src/Json.antt =====
-- JSON values as the bot builds and reads them through jansson (src/jsonwrap.cpp wraps them). How a
-- value is printed and read, and which texts can be a JSON string, are jansson's: `Jansson`.
use dazeus_core.Base.{◌≡◌, List, [], ◌∷◌, Option, none, some, ◌==◌, if◌then◌else◌}
use dazeus_core.Int.{ℤ}
use dazeus_core.Text.{Str, str_eq}

-- A real number is kept as the text that a stream prints for it.
mutual
  pub data Json : Type 0 where
    json_null json_true json_false : Json
    json_integer : ℤ → Json
    json_real json_text : Str → Json
    json_array : Items → Json
    json_object : Fields → Json

  pub data Items : Type 0 where
    no_items : Items
    item : Json → Items → Items

  pub data Fields : Type 0 where
    no_fields : Fields
    field : Str → Json → Fields → Fields

pub record Jansson : Type 0 where
  -- `json_string`: NULL where the text is not UTF-8
  pub json_string : Str → Option Json
  -- `json_dumps(value, 0)`
  pub dumps : Json → Str
  -- `json_loads(text, 0, &error)`
  pub loads : Str → Option Json
  -- `json_array_append_new` and `json_object_set_new`; a NULL value is an error
  pub append_new : Items → Option Json → Items
  pub set_new : Fields → Str → Option Json → Fields
  pub object_get : Fields → Str → Option Json

-- What jansson documents of its objects: a key has the value that was set last, and setting a NULL
-- fails.
pub record JanssonLaws (j : Jansson) : Type 0 where
  pub get-set :
      (fs : Fields) (k l : Str) (v : Json)
      → j.object_get (j.set_new fs k (some v)) l
        ≡ (if str_eq k l then some v else j.object_get fs l)
  pub set_null : (fs : Fields) (k : Str) → j.set_new fs k none ≡ fs

-- `s.c_str()`, read by a C function: the text up to its first NUL
unfoldable pub c_str : Str → Str
c_str [] = []
c_str (c ∷ s) = let rest = c ∷ c_str s in if c == 0 then [] else rest

unfoldable pub append_strings : Jansson → Items → List Str → Items
unfolding c_str
append_strings j xs [] = xs
append_strings j xs (v ∷ vs) = append_strings j (j.append_new xs (j.json_string (c_str v))) vs
