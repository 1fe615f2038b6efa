-- ===== src/Postgres/Kept.antt =====
-- A property that is set for a network, or for all of them, by the PostgreSQL backend.
use dazeus_core.Base.{
  ◌≡◌, refl, sym, subst, ◌∙◌, ap, Bool, true, false, List, [], ◌∷◌, ◌++◌, map, Option, none, some,
  inr, is_empty, Bool-cases, inl,
}
use dazeus_core.Text.{Str}
use dazeus_core.Requests.{returns}
use dazeus_core.Sqlite.Rows.{Property, Tables, keep, is_at}
use dazeus_core.Sqlite.Ordered.{first, or_else}
use dazeus_core.Sqlite.Places.{row_at-append, is_at_self}
use dazeus_core.Sqlite.Scoped.{row_at}
use dazeus_core.Postgres.{Server, first_text, property, set_property}
use dazeus_core.Postgres.Rows.{
  update_value, inserted, is_same, insert_property, upsert, upsert_property, value_of, find_values,
}
use dazeus_core.Postgres.Lookup.{EmptyFirst, find_row_lem}
use dazeus_core.Postgres.Lost.{Works, property-works, set_property-works}

keep_out :
    (p : Property → Bool) (x : Property) (rows : List Property)
    → p x ≡ false
    → keep p (x ∷ rows) ≡ keep p rows
unfolding keep
keep_out p x rows e = rw e refl

first-none : (p : Property → Bool) (rows : List Property) → keep p rows ≡ [] → first p rows ≡ none
unfolding keep first
first-none p [] h = refl
first-none p (x ∷ rows) h = elim (Bool-cases (p x)) [
  | inl e ↦ absurd cc
  | inr e ↦ rw e (first-none p rows (sym (keep_out p x rows e) ∙ h))
]

-- the UPDATE leaves a row at its place
is_at-update_value :
    (k value n r s : Str) (x : Property)
    → is_at k n r s (update_value k value n r s x) ≡ is_at k n r s x
unfolding update_value
is_at-update_value k value n r s x = elim (Bool-cases (is_at k n r s x)) [
  | inl e ↦ rw e (unfold is_at in e)
  | inr e ↦ rw e (unfold is_at in e)
]

-- the row that the UPDATE finds has the new value
first-update :
    (k value n r s : Str) (rows : List Property) (old : Property) (others : List Property)
    → keep (is_at k n r s) rows ≡ old ∷ others
    → value_of (first (is_at k n r s) (map (update_value k value n r s) rows)) ≡ value ∷ []
unfolding keep first update_value
first-update k value n r s [] old others h = absurd cc
first-update k value n r s (x ∷ rows) old others h = elim (Bool-cases (is_at k n r s x)) [
  | inl e ↦ rw (is_at-update_value k value n r s x, e) refl
  | inr e ↦
      rw (is_at-update_value k value n r s x, e)
        (first-update k value n r s rows old others (sym (keep_out (is_at k n r s) x rows e) ∙ h))
]

is_at-inserted : (k value n : Str) → is_at k n [] [] (inserted k value n [] []) ≡ true
unfolding inserted
is_at-inserted k value n = is_at_self (inserted k value n [] [])

inserted_rows :
    (x : Property) (rows rows' there : List Property)
    → insert_property x rows there ≡ some rows'
    → rows ++ x ∷ [] ≡ rows'
unfolding insert_property
inserted_rows x rows rows' [] h = cc
inserted_rows x rows rows' (old ∷ _) h = absurd cc

some-injective : {A : Type 0} {a b : A} → some a ≡ some b → a ≡ b
some-injective h = cc

-- what stands for the network after the change
upsert-row_at :
    (k value n : Str) (rows rows' : List Property)
    → upsert_property k value n [] [] rows ≡ some rows'
    → value_of (row_at k rows' n [] []) ≡ value ∷ []
unfolding upsert_property row_at
upsert-row_at k value n rows rows' h = after (keep (is_at k n [] []) rows) refl h
  where
    x : Property
    x = inserted k value n [] []

    after :
        (there : List Property)
        → keep (is_at k n [] []) rows ≡ there
        → upsert k value n [] [] rows there ≡ some rows'
        → value_of (first (is_at k n [] []) rows') ≡ value ∷ []
    after [] g h =
        subst (λ xs. value_of (first (is_at k n [] []) xs) ≡ value ∷ [])
          (inserted_rows x rows rows' (keep (is_same x) rows) (unfold upsert in h))
          (rw
            (
              row_at-append x k n [] [] rows,
              first-none (is_at k n [] []) rows g,
              is_at-inserted k value n,
            )
            refl)
    after (old ∷ []) g h =
        subst (λ xs. value_of (first (is_at k n [] []) xs) ≡ value ∷ [])
          (some-injective (unfold upsert in h)) (first-update k value n [] [] rows old [] g)
    after (old ∷ other ∷ _) g h = absurd (unfold upsert in cc)

-- A property that is set for a network or for all networks, where the primary key allows it: where no
-- call of the server fails, set_property returns, and property answers the value in that scope,
-- whatever the collation has behind the empty text.
pub set_property-kept :
    (v : Server) (t : Tables) (k value n : Str) (rows : List Property)
    → Works v
    → EmptyFirst v.order
    → is_empty value ≡ false
    → upsert_property k value n [] [] t.properties ≡ some rows
    → ((set_property v t k value n [] []).1 ≡ returns tt)
      × ((property v (set_property v t k value n [] []).0 k n [] []).1 ≡ returns value)
unfolding find_values
set_property-kept v t k value n rows works laws e h =
    rw (set_property-works v works t k value n [] [] rows e h) (
      refl,
      ap (λ p. p.1) (property-works v works (record t { properties = rows }) k n [] [])
          ∙ ap (λ o. returns (first_text (value_of o))) (find_row_lem v.order laws k n [] [] rows)
          ∙ ap returns
              (nearest (row_at k rows n [] []) _ (upsert-row_at k value n t.properties rows h)),
    )
  where
    nearest :
        (o rest : Option Property)
        → value_of o ≡ value ∷ []
        → first_text (value_of (or_else (or_else (or_else o o) (or_else o o)) rest)) ≡ value
    nearest none rest g = absurd cc
    nearest (some row) rest g = cc
