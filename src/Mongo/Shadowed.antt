-- ===== src/Mongo/Shadowed.antt =====
-- One key that is set for all networks and for one of them, in the MongoDB backend.
use dazeus_core.Base.{
  ◌≤◌, ◌+◌, ◌≡◌, refl, ◌∙◌, ap, true, false, List, [], ◌∷◌, some, length, is_empty, arith,
  if◌then◌else◌, leb,
}
use dazeus_core.Text.{Str, lit, str_eq, str_eq_self}
use dazeus_core.Json.{c_str}
use dazeus_core.Run.{undefined_behaviour}
use dazeus_core.Requests.{Outcome, returns, throws, crashes}
use dazeus_core.Sqlite.{◌>>=◌}
use dazeus_core.Sqlite.Rows.{keep, greatest}
use dazeus_core.Mongo.Documents.{
  null, text, Document, Selector, field, field_eq, field_lt, comes_before, meets, selects,
  set_field, from_selector, change_first, upsert,
}
use dazeus_core.Mongo.{
  Store, Driver, exact_scope, wider_scope, property_selector, set_selector, keys_selector,
  prefix_regex, packet, get_data, get_string, last_of, read_one, value_in, keys_in, find_property,
  property, store_value, change_property, set_property, skip_bytes, read_keys, find_keys,
  property_keys,
}

-- No call of the server fails.
pub record Works (d : Driver) : Type 0 where
  pub query : (selector : Selector) → d.query_fails selector ≡ false
  pub cursor : (selector : Selector) → d.cursor_fails selector ≡ false
  pub reading : (document : Document) → d.data_fails document ≡ false
  pub update : (selector : Selector) → d.update_fails selector ≡ false

abbrev pub no_documents : Store
no_documents = record { properties = []; permissions = [] }

-- the documents of a key that is set for all networks, and for one
abbrev pub for_all : Str → Str → Document
for_all k v =
    (lit "variable", text (c_str k))
    ∷ (lit "network", null)
    ∷ (lit "receiver", null)
    ∷ (lit "sender", null)
    ∷ (lit "value", text (c_str v))
    ∷ []

abbrev pub for_one : Str → Str → Str → Document
for_one k w n =
    (lit "variable", text (c_str k))
    ∷ (lit "network", text (c_str n))
    ∷ (lit "receiver", null)
    ∷ (lit "sender", null)
    ∷ (lit "value", text (c_str w))
    ∷ []

-- a C string is not longer than what it is read from
length-c_str : (s : Str) → length (c_str s) ≤ length s
unfolding c_str
length-c_str [] = omega arith
length-c_str (c ∷ s) = ground (arith, length-c_str s)

too_short : (k : Str) → leb (length k + 1) (length (c_str (c_str k))) ≡ false
too_short k = ground (arith, length-c_str k, length-c_str (c_str k))

then_returns :
    {A : Type 0} (o : Outcome A) → (o >>= λ a. returns tt >>= λ _. returns a) ≡ (o >>= returns)
then_returns (returns a) = refl
then_returns (throws why) = refl
then_returns (crashes why) = refl

module _ (d : Driver) (works : Works d) where
  -- a query that selects a document has a packet
  pub packet-works :
      (selector : Selector) (x : Document) (xs : List Document)
      → packet d selector (x ∷ xs) ≡ some (x ∷ xs)
  unfolding packet
  packet-works selector x xs = rw (works.query selector, packet) refl

  get_data-works : (x : Document) (why : Str) → get_data d (some x) why ≡ returns x
  unfolding get_data
  get_data-works x why = rw (works.reading x, get_data) refl

  pub read_one-works :
      {A : Type 0} (selector : Selector) (f : Document → Outcome A) (x : Document)
      → read_one d selector f (x ∷ []) ≡ (f x >>= returns)
  unfolding read_one
  read_one-works selector f x =
      rw (works.cursor selector, read_one)
        (rw (get_data-works x (lit "Failed to retrieve data from cursor")) (then_returns (f x)))

module _ (d : Driver) (works : Works d) (k v w : Str) where
  change_property-works :
      (t : Store) (selector : Selector) (value : Str)
      → is_empty value ≡ false
      → change_property d t selector value
        ≡ (record t { properties = store_value d t.properties selector value }, returns tt)
  unfolding change_property
  change_property-works t selector [] e = absurd cc
  change_property-works t selector (c ∷ value) e = rw (works.update selector, change_property) refl

  stored_first : store_value d [] (set_selector k [] [] []) v ≡ for_all k v ∷ []
  unfolding store_value set_selector exact_scope upsert change_first set_field from_selector lit
      str_eq
  stored_first = refl

  stored_second :
      (n : Str)
      → is_empty n ≡ false
      → store_value d (for_all k v ∷ []) (set_selector k n [] []) w
        ≡ for_all k v ∷ for_one k w n ∷ []
  unfolding store_value set_selector exact_scope upsert change_first set_field from_selector selects
      meets field field_eq lit str_eq
  stored_second [] e = absurd cc
  stored_second (c ∷ n) e = ground arith

  -- what the two calls leave
  both : Str → Store
  both n = record { properties = for_all k v ∷ for_one k w n ∷ []; permissions = [] }

  set_both :
      (n : Str)
      → is_empty v ≡ false
      → is_empty w ≡ false
      → is_empty n ≡ false
      → (set_property d (set_property d no_documents k v [] [] []).0 k w n [] []).0 ≡ both n
  unfolding set_property both str_eq
  set_both n ev ew en =
      rw
        (
          change_property-works no_documents (set_selector k [] [] []) v ev,
          stored_first,
          change_property-works (record { properties = for_all k v ∷ []; permissions = [] })
              (set_selector k n [] []) w ew,
          stored_second n en,
        )
        refl

  found_one :
      (n : Str)
      → last_of (keep (selects d.matches (property_selector k [] [] [])) (both n).properties)
        ≡ for_one k w n ∷ []
  unfolding last_of keep selects property_selector wider_scope meets field field_eq field_lt
      comes_before greatest both lit str_eq
  found_one n = rw (str_eq_self (c_str k)) refl

  property-both : (n : Str) → (property d (both n) k [] [] []).1 ≡ returns (c_str (c_str w))
  unfolding property find_property
  property-both n =
      ap
        (λ found.
          value_in d (property_selector k [] [] []) (packet d (property_selector k [] [] []) found))
        (found_one n)
      ∙ ap (value_in d (property_selector k [] [] []))
          (packet-works d works (property_selector k [] [] []) (for_one k w n) [])
      ∙ (unfold value_in in read_one-works d works (property_selector k [] [] []) _ (for_one k w n))
      ∙ (unfold get_string field lit str_eq in refl)

  -- the keys of all networks with the prefix `k`, of which `k` itself is one
  selected :
      (n : Str)
      → d.matches (c_str (prefix_regex k)) (c_str k) ≡ true
      → keep (selects d.matches (keys_selector k [] [] [])) (both n).properties ≡ for_all k v ∷ []
  unfolding keep selects keys_selector exact_scope meets field field_eq both lit str_eq
  selected n h = rw h refl

  read_keys-first : read_keys d (length k + 1) (for_all k v ∷ []) ≡ crashes undefined_behaviour
  unfolding read_keys skip_bytes get_string field lit str_eq
  read_keys-first =
      rw (get_data-works d works (for_all k v) (lit "Failed to get data from cursor"), too_short k)
        refl

  property_keys-both :
      (n : Str)
      → d.matches (c_str (prefix_regex k)) (c_str k) ≡ true
      → (property_keys d (both n) k [] [] []).1 ≡ crashes undefined_behaviour
  unfolding property_keys find_keys skip_bytes
  property_keys-both n h =
      ap
        (λ found.
          keys_in d (keys_selector k [] [] []) (length k + 1)
            (packet d (keys_selector k [] [] []) found))
        (selected n h)
      ∙ ap (keys_in d (keys_selector k [] [] []) (length k + 1))
          (packet-works d works (keys_selector k [] [] []) (for_all k v) [])
      ∙ (unfold keys_in in
          ap
            (λ b.
              if b
              then throws (lit "Failed to create cursor")
              else read_keys d (length k + 1) (for_all k v ∷ []))
            (works.cursor (keys_selector k [] [] [])))
      ∙ read_keys-first

  -- One key is set for all networks and then for one, in an empty database. Where no call fails,
  -- property answers for all networks what is set for the one; and to list the keys of all networks
  -- with this key as their prefix reads behind the end of a text.
  pub two_scopes_lem :
      (n : Str)
      → is_empty v ≡ false
      → is_empty w ≡ false
      → is_empty n ≡ false
      → d.matches (c_str (prefix_regex k)) (c_str k) ≡ true
      → let t = (set_property d (set_property d no_documents k v [] [] []).0 k w n [] []).0 in
        ((property d t k [] [] []).1 ≡ returns (c_str (c_str w)))
        × ((property_keys d t k [] [] []).1 ≡ crashes undefined_behaviour)
  two_scopes_lem n ev ew en h = rw (set_both n ev ew en) (property-both n, property_keys-both n h)
