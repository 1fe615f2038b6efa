-- ===== src/Sqlite/RoundTrip.antt =====
-- The methods of the SQLite backend where no call of SQLite fails.
use dazeus_core.Base.{ap, ◌≡◌, refl, ◌∙◌, ℕ, ◌+◌, false, List, [], ◌∷◌, arith, is_empty}
use dazeus_core.Text.{Str}
use dazeus_core.Json.{c_str}
use dazeus_core.Requests.{returns}
use dazeus_core.Sqlite.{
  Faults, Statement, find_property, update_property, try_bind, bind_all, step, first_value,
  set_property, property,
}
use dazeus_core.Sqlite.Rows.{Tables, replace_property}
use dazeus_core.Sqlite.Scoped.{row_at, select_property_lem}
use dazeus_core.Sqlite.Fitting.{narrow}
use dazeus_core.Sqlite.Places.{is_at_self, row_at-replace}
use dazeus_core.Sqlite.Stored.{row_of, AllWell}

-- the tables with the value at its place
abbrev pub with_row : Tables → Str → Str → Str → Str → Str → Tables
with_row t k v n r s = record t { properties = replace_property (row_of k v n r s) t.properties }

module _ (f : Faults) (well : AllWell f) where
  try_bind-well : (statement : Statement) (i : ℕ) (v : Str) → try_bind f statement i v ≡ returns tt
  unfolding try_bind AllWell
  try_bind-well statement i v = rw (well.0 statement i v, try_bind) refl

  pub step-well : (statement : Statement) (t : Tables) (i : ℕ) → step f statement t i ≡ returns tt
  unfolding step AllWell
  step-well statement t i = rw (well.1 statement t i, step) refl

  pub bind_all-well :
      (statement : Statement) (i : ℕ) (vs : List Str) → bind_all f statement i vs ≡ returns tt
  unfolding bind_all
  bind_all-well statement i [] = refl
  bind_all-well statement i (v ∷ vs) =
      rw (try_bind-well statement i v) (bind_all-well statement (i + 1) vs)

  property-well :
      (t : Tables) (k n r s : Str)
      → (property f t k n r s).1
        ≡ returns (
            first_value
              (narrow n (λ n'. narrow r (λ r'. narrow s (λ s'. row_at k t.properties n' r' s')))))
  unfolding property
  property-well t k n r s =
      rw
        (
          bind_all-well find_property 1 (k ∷ n ∷ r ∷ s ∷ []),
          step-well find_property t 0,
          select_property_lem k n r s t.properties,
        )
        refl

  pub set_property-well :
      (t : Tables) (k v n r s : Str)
      → is_empty v ≡ false
      → set_property f t k v n r s ≡ (with_row t k v n r s, returns tt)
  unfolding set_property
  set_property-well t k [] n r s e = ground (arith, e)
  set_property-well t k (c ∷ v) n r s e =
      rw
        (
          bind_all-well update_property 1 (k ∷ (c ∷ v) ∷ n ∷ r ∷ s ∷ []),
          step-well update_property t 0,
          set_property,
        )
        refl

  pub property-with_row :
      (t : Tables) (k v n r s : Str)
      → property f (with_row t k v n r s) k n r s ≡ (with_row t k v n r s, returns (c_str v))
  unfolding property
  property-with_row t k v n r s =
      ap (λ o. (with_row t k v n r s, o))
        (property-well (with_row t k v n r s) k n r s
          ∙ rw
              (
                row_at-replace (row_of k v n r s) k n r s t.properties,
                is_at_self (row_of k v n r s),
              )
              (unfold first_value in refl))
