-- ===== src/Postgres/Lost.antt =====
-- A property that is set for one channel by the PostgreSQL backend.
use dazeus_core.Base.{
  ◌≡◌, refl, sym, ◌∙◌, ap, Bool, false, List, [], ◌∷◌, ◌++◌, Option, none, some, inr, arith,
  is_empty,
}
use dazeus_core.Text.{Str, str_eq, lit}
use dazeus_core.Requests.{Outcome, returns}
use dazeus_core.Sqlite.Rows.{Property, Tables, keep, greatest, is_at, is_found, fits}
use dazeus_core.Postgres.{
  Server, committed, prepared_as, bootstrap_names, updated, effect, unless, answered, send,
  send_named, exec, reading, writing, end, first_text, property, set_property,
}
use dazeus_core.Postgres.Rows.{
  Prepared, precedes_in, find_property, update_property, find_row, find_values, value_of, inserted,
  is_same, insert_property, upsert, upsert_property,
}

-- No call of the server fails.
pub record Works (v : Server) : Type 0 where
  pub start : v.start ≡ none
  pub fault :
      (statement : Prepared) (values : List Str) (t : Tables) → v.fault statement values t ≡ none
  pub finish : (t : Tables) → v.finish t ≡ committed

unless-none : {A : Type 0} (o : Option Str) (m : Outcome A) → o ≡ none → unless o m ≡ m
unless-none o m h = ap (λ x. unless x m) h

module _ (v : Server) (works : Works v) where
  exec-works :
      (name : Str) (values : List Str) (t t' : Tables) (column : List Str) (statement : Prepared)
      → prepared_as bootstrap_names name ≡ some statement
      → effect v statement values t ≡ inr (t', column)
      → exec v name values t ≡ returns (t', column)
  unfolding exec send_named send
  exec-works name values t t' column statement h e =
      unless-none v.start _ works.start
      ∙ ap (send_named v name values t) h
      ∙ unless-none (v.fault statement values t) _ (works.fault statement values t)
      ∙ ap answered e

  pub property-works :
      (t : Tables) (k n r s : Str)
      → property v t k n r s ≡ (t, returns (first_text (find_values v.order k n r s t.properties)))
  unfolding property
  property-works t k n r s =
      ap (λ o. reading v t o first_text)
        (exec-works (lit "find_property") (k ∷ n ∷ r ∷ s ∷ []) t t
          (find_values v.order k n r s t.properties) find_property
          (unfold prepared_as bootstrap_names lit str_eq in refl) (unfold effect in refl))
      ∙ (unfold reading in refl)

  pub set_property-works :
      (t : Tables) (k value n r s : Str) (rows : List Property)
      → is_empty value ≡ false
      → upsert_property k value n r s t.properties ≡ some rows
      → set_property v t k value n r s ≡ (record t { properties = rows }, returns tt)
  unfolding set_property effect updated writing end
  set_property-works t k [] n r s rows e h = absurd cc
  set_property-works t k (c ∷ value) n r s rows e h =
      ap (writing v t) (
        exec-works (lit "update_property") (k ∷ (c ∷ value) ∷ n ∷ r ∷ s ∷ []) t
          (record t { properties = rows }) [] update_property
          (unfold prepared_as bootstrap_names lit str_eq in refl) (ap (updated v t) h))
      ∙ ap (end v t (record t { properties = rows }))
          (works.finish (record t { properties = rows }))

given : (u : Str) → is_empty u ≡ false → str_eq u [] ≡ false
unfolding str_eq
given [] e = e
given (c ∷ u) e = refl

keep-none :
    (p : Property → Bool) (x : Property) (rows : List Property)
    → p x ≡ false
    → keep p (rows ++ x ∷ []) ≡ keep p rows
unfolding keep
keep-none p x [] h = rw h refl
keep-none p x (y ∷ rows) h = rw (keep-none p x rows h) refl

module _ (v : Server) (works : Works v) (t : Tables) (k n r : Str) where
  upsert-inserted :
      (value s : Str)
      → keep (is_at k n r s) t.properties ≡ []
      → keep (is_same (inserted k value n r s)) t.properties ≡ []
      → upsert_property k value n r s t.properties
        ≡ some (t.properties ++ inserted k value n r s ∷ [])
  unfolding upsert_property
  upsert-inserted value s absent new =
      ap (upsert k value n r s t.properties) absent
      ∙ (unfold upsert in ap (insert_property (inserted k value n r s) t.properties) new)

  -- the row that is inserted for a channel has the channel as its sender
  not_found :
      (value : Str) → is_empty r ≡ false → is_found k n r [] (inserted k value n r []) ≡ false
  unfolding is_found inserted fits
  not_found value e = ground (arith, given r e)

  -- A property that is set for a channel and is not stored yet: set_property returns, where no call of
  -- the server fails, but what property answers for that channel is what it answered before.
  pub set_property-lost :
      (value : Str)
      → is_empty value ≡ false
      → is_empty r ≡ false
      → keep (is_at k n r []) t.properties ≡ []
      → keep (is_same (inserted k value n r [])) t.properties ≡ []
      → ((set_property v t k value n r []).1 ≡ returns tt)
        × ((property v (set_property v t k value n r []).0 k n r []).1 ≡ (property v t k n r []).1)
  unfolding find_values find_row
  set_property-lost value e given_r absent new =
      rw
        (set_property-works v works t k value n r [] (t.properties ++ inserted k value n r [] ∷ [])
          e (upsert-inserted value [] absent new))
        (
          refl,
          ap (λ p. p.1) (property-works v works changed k n r [])
              ∙ ap (λ rows. returns (first_text (value_of (greatest (precedes_in v.order) rows))))
                  (keep-none (is_found k n r []) (inserted k value n r []) t.properties
                    (not_found value given_r))
              ∙ sym (ap (λ p. p.1) (property-works v works t k n r [])),
        )
    where
      changed : Tables
      changed = record t { properties = t.properties ++ inserted k value n r [] ∷ [] }
