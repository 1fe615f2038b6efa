-- ===== src/Mongo.antt =====
-- The MongoDB backend (src/db/mongo.cpp): its selectors and updates, and the methods that send them.
-- What the server and libmongo-client answer where a call fails is a parameter.
pub mod Documents
pub mod Permissions
pub mod Shadowed
pub mod Granted
use dazeus_core.Base.{
  ℕ, ◌+◌, Bool, true, false, not, ◌&&◌, List, [], ◌∷◌, ◌++◌, Option, none, some, if◌then◌else◌,
  is_empty, leb, length, drop, take,
}
use dazeus_core.Text.{Str, lit}
use dazeus_core.Json.{c_str}
use dazeus_core.Run.{undefined_behaviour, assert_failed}
use dazeus_core.Requests.{Outcome, returns, throws, crashes, Database}
use dazeus_core.Sqlite.{◌>>=◌}
use dazeus_core.Sqlite.Rows.{keep, greatest}
use Documents.{
  Field, null, text, boolean, Document, Condition, equals, one_of, regex, Selector, field,
  comes_before, selects, set_field, from_selector, upsert,
}

-- the collections `properties` and `permissions` of the database
pub record Store : Type 0 where
  pub properties : List Document
  pub permissions : List Document

-- Which calls fail. `empty_packet` is whether a query that selects no document gives a packet all the
-- same; `matches` is how the server reads a regular expression.
pub record Driver : Type 0 where
  pub connects : Bool
  pub reconnects : Bool
  pub indexes : Bool
  pub error_text : Str
  pub matches : Str → Str → Bool
  pub query_fails : Selector → Bool
  pub empty_packet : Bool
  pub cursor_fails : Selector → Bool
  pub data_fails : Document → Bool
  pub update_fails : Selector → Bool
  pub delete_fails : Selector → Bool

-- a field with a text, which is read as a C string
abbrev pub a_text : Str → Str → Str × Condition
a_text name value = (name, equals (text (c_str value)))

abbrev pub a_null : Str → Str × Condition
a_null name = (name, equals null)

-- the scope of a property that is set, or whose keys are listed: behind the first scope that is not
-- given all are null
unfoldable pub exact_scope : Str → Str → Str → Selector
unfolding lit c_str
exact_scope network receiver sender =
    if not (is_empty network)
    then a_text (lit "network") network
      ∷ (if not (is_empty receiver)
          then a_text (lit "receiver") receiver
            ∷ (if not (is_empty sender)
                then a_text (lit "sender") sender ∷ []
                else a_null (lit "sender") ∷ [])
          else a_null (lit "receiver") ∷ a_null (lit "sender") ∷ [])
    else a_null (lit "network") ∷ a_null (lit "receiver") ∷ a_null (lit "sender") ∷ []

-- the scopes where a property is looked for: what is not given is not asked for
unfoldable pub wider_scope : Str → Str → Str → Selector
unfolding lit c_str
wider_scope network receiver sender =
    if not (is_empty network)
    then (lit "network", one_of (c_str network))
      ∷ (if not (is_empty receiver)
          then (lit "receiver", one_of (c_str receiver))
            ∷ (if not (is_empty sender) then (lit "sender", one_of (c_str sender)) ∷ [] else [])
          else [])
    else []

-- `"^\\Q" << prefix << "\\E"`
unfoldable pub prefix_regex : Str → Str
unfolding lit
prefix_regex prefix = lit "^\\Q" ++ (prefix ++ lit "\\E")

-- a field that has to be a text
unfoldable pub get_string : Field → Str → Outcome Str
get_string (text value) why = returns (c_str value)
get_string _ why = throws why

unfoldable pub get_boolean : Field → Str → Outcome Bool
get_boolean (boolean value) why = returns value
get_boolean _ why = throws why

-- `value += n` on a C string, read afterwards
unfoldable pub skip_bytes : ℕ → Str → Outcome Str
skip_bytes n value =
    if leb n (length value) then returns (drop n value) else crashes undefined_behaviour

-- no more documents come
abbrev pub only_one : List Document → Outcome (Unit {0})
only_one [] = returns tt
only_one (_ ∷ _) = crashes assert_failed

abbrev pub head : List Document → Option Document
head [] = none
head (x ∷ _) = some x

-- the documents of a sorted query with a limit of one
unfoldable pub last_of : List Document → List Document
unfolding greatest comes_before
last_of documents = elim (greatest comes_before documents) [ none ↦ [] | some x ↦ x ∷ [] ]

unfoldable pub property_selector : Str → Str → Str → Str → Selector
unfolding wider_scope lit c_str
property_selector variable network receiver sender =
    a_text (lit "variable") variable ∷ wider_scope network receiver sender

unfoldable pub set_selector : Str → Str → Str → Str → Selector
unfolding exact_scope lit c_str
set_selector variable network receiver sender =
    a_text (lit "variable") variable ∷ exact_scope network receiver sender

unfoldable pub keys_selector : Str → Str → Str → Str → Selector
unfolding prefix_regex exact_scope lit c_str
keys_selector prefix network receiver sender =
    (lit "variable", regex (c_str (prefix_regex prefix))) ∷ exact_scope network receiver sender

module _ (d : Driver) where
  -- `mongo_sync_cmd_query`: the packet with the documents
  unfoldable pub packet : Selector → List Document → Option (List Document)
  packet selector documents =
      if d.query_fails selector
      then none
      else if is_empty documents && not d.empty_packet
      then none
      else some documents

  -- the document that the cursor stands on
  unfoldable pub get_data : Option Document → Str → Outcome Document
  get_data none why = throws why
  get_data (some document) why = if d.data_fails document then throws why else returns document

  -- the one document of a packet, whose field is read
  unfoldable pub read_one :
      {A : Type 0} → Selector → (Document → Outcome A) → List Document → Outcome A
  unfolding get_data lit
  read_one selector f documents =
      if d.cursor_fails selector
      then throws (lit "Failed to allocate cursor")
      else (get_data (head documents) (lit "Failed to retrieve data from cursor") >>= λ document.
          f document >>= λ a. only_one (drop 1 documents) >>= λ _. returns a)

  unfoldable pub value_in : Selector → Option (List Document) → Outcome Str
  unfolding read_one get_string field lit
  value_in selector none = returns []
  value_in selector (some documents) =
      read_one selector
        (λ x. get_string (field (lit "value") x) (lit "Failed to retrieve data from cursor"))
        documents

  unfoldable pub find_property : Store → Selector → Outcome Str
  unfolding packet last_of keep selects value_in
  find_property t selector =
      value_in selector (packet selector (last_of (keep (selects d.matches selector) t.properties)))

  unfoldable pub property : Store → Str → Str → Str → Str → Store × Outcome Str
  unfolding find_property property_selector
  property t variable network receiver sender =
      (t, find_property t (property_selector variable network receiver sender))

  unfoldable pub store_value : List Document → Selector → Str → List Document
  unfolding upsert set_field from_selector selects lit c_str
  store_value documents selector value =
      let set = set_field (lit "value") (text (c_str value)) in
      upsert (selects d.matches selector) set (set (from_selector selector)) documents

  unfoldable pub change_property : Store → Selector → Str → Store × Outcome (Unit {0})
  unfolding keep selects store_value lit
  change_property t selector value =
      if is_empty value
      then (if d.delete_fails selector then (t, throws (lit "Failed to delete property")) else (
        record t { properties = keep (λ x. not (selects d.matches selector x)) t.properties },
        returns tt,
      ))
      else (if d.update_fails selector
          then (t, throws (lit "Failed to update property"))
          else (record t { properties = store_value t.properties selector value }, returns tt))

  unfoldable pub set_property : Store → Str → Str → Str → Str → Str → Store × Outcome Unit
  unfolding change_property set_selector
  set_property t variable value network receiver sender =
      change_property t (set_selector variable network receiver sender) value

  -- the loop over the cursor
  unfoldable pub read_keys : ℕ → List Document → Outcome (List Str)
  unfolding get_data get_string skip_bytes field lit
  read_keys skipped [] = returns []
  read_keys skipped (x ∷ xs) = get_data (some x) (lit "Failed to get data from cursor") >>= λ y.
      get_string (field (lit "variable") y) (lit "Failed to get string form cursor") >>= λ value.
      skip_bytes skipped value >>= λ key. read_keys skipped xs >>= λ keys. returns (key ∷ keys)

  unfoldable pub keys_in : Selector → ℕ → Option (List Document) → Outcome (List Str)
  unfolding read_keys lit
  keys_in selector skipped none = throws (lit "Failed to execute query")
  keys_in selector skipped (some documents) =
      if d.cursor_fails selector
      then throws (lit "Failed to create cursor")
      else read_keys skipped documents

  unfoldable pub find_keys : Store → Selector → ℕ → Outcome (List Str)
  unfolding packet keep selects keys_in
  find_keys t selector skipped =
      keys_in selector skipped (packet selector (keep (selects d.matches selector) t.properties))

  unfoldable pub property_keys : Store → Str → Str → Str → Str → Store × Outcome (List Str)
  unfolding find_keys keys_selector
  property_keys t prefix network receiver sender =
      (t, find_keys t (keys_selector prefix network receiver sender) (length prefix + 1))
