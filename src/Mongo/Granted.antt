-- ===== src/Mongo/Granted.antt =====
-- A permission that is set in the MongoDB backend and asked for again.
use dazeus_core.Base.{
  ◌≡◌, refl, ◌∙◌, ap, Bool, true, false, List, [], ◌∷◌, ◌++◌, Option, none, some, is_empty,
  Bool-cases, inl, inr,
}
use dazeus_core.Text.{Str, lit, str_eq, str_eq_self}
use dazeus_core.Json.{c_str}
use dazeus_core.Requests.{returns}
use dazeus_core.Sqlite.{◌>>=◌}
use dazeus_core.Sqlite.Rows.{keep}
use dazeus_core.Mongo.Documents.{
  Document, Selector, boolean, field, field_eq, meets, selects, change_first, upsert,
}
use dazeus_core.Mongo.{Store, Driver, get_boolean, packet}
use dazeus_core.Mongo.Permissions.{
  permission_selector, permission_document, sender_only, channel_only, network_only, selectors,
  mode_selector, first_of, permission_in, ask_modes, ask_permission, store_permission,
  set_permission,
}
use dazeus_core.Mongo.Shadowed.{Works, packet-works, read_one-works}

module _ (p : Document → Bool) (f : Document → Document) (x : Document) where
  upsert_here : (y : Document) (ys : List Document) → p y ≡ true → upsert p f x (y ∷ ys) ≡ f y ∷ ys
  unfolding upsert change_first
  upsert_here y ys h = rw (h, upsert) refl

  upsert_later :
      (y : Document) (ys : List Document)
      → p y ≡ false
      → upsert p f x (y ∷ ys) ≡ y ∷ upsert p f x ys
  unfolding upsert change_first
  upsert_later y ys h = rw (h, upsert) (after (change_first p f ys))
    where
      after :
          (o : Option (List Document))
          → elim (elim o as (λ _. Option (List Document)) [ none ↦ none | some zs ↦ some (y ∷ zs) ])
              as (λ _. List Document) [ none ↦ y ∷ ys ++ x ∷ [] | some changed ↦ changed ]
            ≡ y ∷ elim o as (λ _. List Document) [ none ↦ ys ++ x ∷ [] | some changed ↦ changed ]
      after none = refl
      after (some zs) = refl

-- after an upsert the document that was stored is the first that is selected
upsert-found :
    (p : Document → Bool) (x : Document) (xs : List Document)
    → p x ≡ true
    → first_of (keep p (upsert p (λ y. x) x xs)) ≡ x ∷ []
unfolding keep
upsert-found p x [] h = unfold upsert change_first in rw h refl
upsert-found p x (y ∷ ys) h = elim (Bool-cases (p y)) [
  | inl e ↦ rw (upsert_here p (λ z. x) x y ys e, h) refl
  | inr e ↦ rw (upsert_later p (λ z. x) x y ys e, e) (upsert-found p x ys h)
]

module _ (d : Driver) (works : Works d) where
  document_selected :
      (name network channel sender : Str) (permission : Bool)
      → selects d.matches
          (permission_selector name network (some channel) (some sender))
          (permission_document name network (some channel) (some sender) permission)
        ≡ true
  unfolding selects permission_selector permission_document meets field field_eq lit str_eq
  document_selected name network channel sender permission =
      rw
        (
          str_eq_self (c_str name),
          str_eq_self (c_str network),
          str_eq_self (c_str channel),
          str_eq_self (c_str sender),
        )
        refl

  store_permission-works :
      (t : Store) (selector : Selector) (x : Document)
      → store_permission d t selector x ≡ (
        record t { permissions = upsert (selects d.matches selector) (λ y. x) x t.permissions },
        returns tt,
      )
  unfolding store_permission
  store_permission-works t selector x = rw (works.update selector, store_permission) refl

  -- the first mode finds what is stored
  ask_modes-found :
      (t : Store) (selector : Selector) (others : List Selector) (x : Document)
      (permission default_permission : Bool)
      → first_of (keep (selects d.matches selector) t.permissions) ≡ x ∷ []
      → field (lit "permission") x ≡ boolean permission
      → ask_modes d t (selector ∷ others) default_permission ≡ returns permission
  unfolding ask_modes
  ask_modes-found t selector others x permission default_permission h e =
      let later = ask_modes d t others default_permission in
      ap (λ found. permission_in d selector (packet d selector found) later) h
      ∙ ap (λ o. permission_in d selector o later) (packet-works d works selector x [])
      ∙ (unfold permission_in in read_one-works d works selector _ x)
      ∙ ap (λ v. get_boolean v (lit "Failed to retrieve data from cursor") >>= returns) e
      ∙ (unfold get_boolean in refl)

  -- The permission that is set for a network, a channel and a sender is what has_permission answers for
  -- them, whatever was stored before and whatever the default is, where no call fails.
  pub ask_permission-set_permission :
      (t : Store) (permission default_permission : Bool) (name network channel sender : Str)
      → is_empty channel ≡ false
      → is_empty sender ≡ false
      → ((set_permission d t permission name network channel sender).1 ≡ returns tt)
        × ((ask_permission d
              (set_permission d t permission name network channel sender).0
              name
              network
              channel
              sender
              default_permission).1
            ≡ returns permission)
  unfolding set_permission ask_permission mode_selector
  ask_permission-set_permission t permission default_permission name network [] sender c s =
      absurd cc
  ask_permission-set_permission t permission default_permission name network (x ∷ channel) [] c s =
      absurd cc
  ask_permission-set_permission t permission default_permission name network (x ∷ channel)
        (y ∷ sender) c s =
      let selector = permission_selector name network (some (x ∷ channel)) (some (y ∷ sender)) in
      let document =
        permission_document name network (some (x ∷ channel)) (some (y ∷ sender)) permission in
      rw (store_permission-works t selector document) (
        refl,
        ask_modes-found
            (record t {
              permissions =
                  upsert (selects d.matches selector) (λ z. document) document t.permissions;
            })
            selector
            (selectors (sender_only ∷ channel_only ∷ network_only ∷ []) name network (x ∷ channel)
              (y ∷ sender))
            document permission default_permission
            (upsert-found (selects d.matches selector) document t.permissions
              (document_selected name network (x ∷ channel) (y ∷ sender) permission))
            (unfold permission_document field lit str_eq in refl),
      )
