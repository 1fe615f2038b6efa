-- ===== src/Tests/Samples.antt =====
-- Concrete functions for what the bot only calls.
use dazeus_core.Base.{
  Option, none, ℕ, ◌+◌, ◌-◌, ◌≡◌, refl, Bool, true, false, not, ◌&&◌, List, [], ◌∷◌, map, none,
  some, arith, ltb, ◌==◌, if◌then◌else◌,
}
use dazeus_core.Int.{pos}
use dazeus_core.Socket.{SocketInfo}
use dazeus_core.Requests.{returns, Database, Bot}
use dazeus_core.Config.{Cmd, Defaults}
use dazeus_core.Text.{Str, str_eq, str_eq_iff, lit}
use dazeus_core.External.{member, Distinct, Utils, UtilsLaws, Networks}
use dazeus_core.Json.{
  Json, json_object, json_text, Items, no_items, item, Fields, no_fields, field, Jansson,
  JanssonLaws,
}

abbrev upper : ℕ → ℕ
upper c = if ltb 96 c && ltb c 123 then c - 32 else c

abbrev lower : ℕ → ℕ
lower c = if ltb 64 c && ltb c 91 then c + 32 else c

abbrev without : List Str → Str → List Str
without [] x = []
without (y ∷ ys) x = let rest = without ys x in if str_eq y x then rest else y ∷ rest

abbrev begins : Str → Str → Bool
begins s [] = true
begins [] (p ∷ ps) = false
begins (c ∷ s) (p ∷ ps) = c == p && begins s ps

abbrev pub utils : Utils
utils = record {
  trim = λ s. s;
  str_to_upper = λ s. map upper s;
  str_to_lower = λ s. map lower s;
  starts_with = λ s p b. begins s p;
  contains = λ xs x. member x xs;
  contains_ci = λ xs x. member x xs;
  erase = without;
}

without-member :
    (xs : List Str) (x y : Str) → member y (without xs x) ≡ (not (str_eq y x) && member y xs)
without-member [] x y = ground arith
without-member (z ∷ xs) x y =
    ground (arith, str_eq_iff z x, str_eq_iff y x, str_eq_iff y z, without-member xs x y)

without-Distinct : (xs : List Str) (x : Str) → Distinct xs → Distinct (without xs x)
without-Distinct [] x d = tt
without-Distinct (z ∷ xs) x d = ground (arith, without-member xs x z, without-Distinct xs x d.1)

pub utils-laws : UtilsLaws utils
utils-laws = record {
  contains_lem = λ xs x. refl;
  member-erase = λ xs x y d. without-member xs x y;
  erase-Distinct = without-Distinct;
}

-- `json_array_append_new`: a NULL value is an error, and the array stays as it was
abbrev append_new : Items → Option Json → Items
append_new xs none = xs
append_new no_items (some v) = item v no_items
append_new (item x xs) (some v) = item x (append_new xs (some v))

-- `json_object_set_new`: a NULL value is an error, and the object stays as it was
abbrev set_new : Fields → Str → Option Json → Fields
set_new fs k none = fs
set_new no_fields k (some v) = field k v no_fields
set_new (field j w fs) k (some v) =
    if str_eq j k then field k v fs else field j w (set_new fs k (some v))

-- `json_object_get`
abbrev object_get : Fields → Str → Option Json
object_get no_fields k = none
object_get (field j w fs) k = if str_eq j k then some w else object_get fs k

-- every text is UTF-8; each value is printed as `{}`, and each packet is an empty object
abbrev pub jansson : Jansson
jansson = record {
  json_string = λ s. some (json_text s);
  dumps = λ v. lit "{}";
  append_new = append_new;
  set_new = set_new;
  object_get = object_get;
  loads = λ s. some (json_object no_fields);
}

-- one network, on which nobody is identified
abbrev pub nets : Networks
nets = record {
  network_name = λ n. lit "net";
  nick = λ n. lit "bot";
  is_identified = λ n s. false;
  joined_channels = λ n. lit "#a" ∷ [];
}

object_get-set_new :
    (fs : Fields) (k l : Str) (v : Json)
    → object_get (set_new fs k (some v)) l ≡ (if str_eq k l then some v else object_get fs l)
object_get-set_new no_fields k l v = refl
object_get-set_new (field i w fs) k l v =
    ground (arith, str_eq_iff i k, str_eq_iff i l, str_eq_iff k l, object_get-set_new fs k l v)

pub jansson-laws : JanssonLaws jansson
jansson-laws = record { get-set = object_get-set_new; set_null = λ fs k. refl }

-- what dotconf hands over
abbrev pub defaults : Defaults
defaults = record {
  network = record {
    name = [];
    display_name = [];
    nick_name = [];
    user_name = [];
    full_name = [];
    password = [];
    auto_connect = false;
    servers = [];
  };
  server = record { host = []; port = pos 6667; priority = pos 5; ssl = false; ssl_verify = true };
}

abbrev pub tag : Str → Cmd
tag name = record { name = name; str = []; value = pos 0; list = [] }

-- a database that holds one value
abbrev pub database : Database Str
database = record {
  property = λ d k a b c. (d, returns d);
  set_property = λ d k v a b c. (v, returns tt);
  property_keys = λ d k a b c. (d, returns []);
  has_permission = λ d k a b c o. (d, returns o);
  unset_permission = λ d k a b c. (d, returns tt);
  set_permission = λ d p k a b c. (d, returns tt);
}

abbrev pub bot_settings : Bot
bot_settings = record {
  networks = (lit "net", 1) ∷ [];
  plugins = [];
  global = record {
    default_nickname = lit "bot";
    default_username = [];
    default_fullname = [];
    plugindirectory = [];
    highlight = lit "}";
  };
  reload = returns tt;
}

abbrev pub silent_plugin : SocketInfo
silent_plugin = record {
  kind = lit "unix";
  subscriptions = [];
  commands = [];
  frame = record { waiting_size = 0; readahead = [] };
  writebuffer = [];
  plugin_name = [];
  plugin_version = [];
  protocol_version = 0;
  config_group = [];
}
