-- ===== src/Postgres/Lookup.antt =====
-- The lookup of a property by the PostgreSQL backend, in the order of the server's collation.
use dazeus_core.Base.{ℕ, ◌≡◌, refl, sym, ◌∙◌, Bool, true, false, List, [], ◌∷◌, arith}
use dazeus_core.Text.{Str, str_lt}
use dazeus_core.Sqlite.Rows.{Property, keep, is_found, fits, precedes, select_property}
use dazeus_core.Sqlite.Ordered.{Holds, keep-Holds, greatest-agree}
use dazeus_core.Sqlite.Fitting.{narrow, fits-eq}
use dazeus_core.Sqlite.Scoped.{row_at, select_property_lem}
use dazeus_core.Postgres.Rows.{precedes_in, find_row}

-- What is asked of a collation: the empty text comes before every other one, and no text before
-- itself.
pub record EmptyFirst (order : Str → Str → Bool) : Type 0 where
  pub before : (c : ℕ) (u : Str) → order [] (c ∷ u) ≡ true
  pub after : (c : ℕ) (u : Str) → order (c ∷ u) [] ≡ false
  pub self : (u : Str) → order u u ≡ false

str_lt_self : (u : Str) → str_lt u u ≡ false
unfolding str_lt
str_lt_self [] = refl
str_lt_self (c ∷ u) = ground (arith, str_lt_self u)

module _ (order : Str → Str → Bool) (laws : EmptyFirst order) where
  -- of a text that is asked for and the empty one, every collation has the same order
  order-fits :
      (wanted u v : Str) → fits wanted u ≡ true → fits wanted v ≡ true → order u v ≡ str_lt u v
  unfolding str_lt
  order-fits wanted [] [] h k = laws.self []
  order-fits wanted [] (c ∷ v) h k = laws.before c v
  order-fits wanted (c ∷ u) [] h k = laws.after c u
  order-fits wanted (c ∷ u) (d ∷ v) h k =
      alike wanted (c ∷ u) (d ∷ v) (fits-eq wanted (c ∷ u) h refl) (fits-eq wanted (d ∷ v) k refl)
    where
      alike : (w u v : Str) → u ≡ w → v ≡ w → order u v ≡ str_lt u v
      alike w u v e f = rw (e, f) (laws.self w ∙ sym (str_lt_self w))

  module _ (key n r s : Str) where
    precedes-agree :
        (x y : Property)
        → is_found key n r s x ≡ true
        → is_found key n r s y ≡ true
        → precedes_in order x y ≡ precedes x y
    unfolding precedes_in precedes is_found
    precedes-agree x y h k =
        rw
          (
            order-fits n x.network y.network (ground (arith, h)) (ground (arith, k)),
            order-fits r x.receiver y.receiver (ground (arith, h)) (ground (arith, k)),
            order-fits s x.sender y.sender (ground (arith, h)) (ground (arith, k)),
          )
          refl

    -- With any collation that has the empty text first, find_property finds what the scopes are looked up
    -- for one after the other, the narrower ones first, as in the SQLite backend.
    pub find_row_lem :
        (rows : List Property)
        → find_row order key n r s rows
          ≡ narrow n (λ n'. narrow r (λ r'. narrow s (λ s'. row_at key rows n' r' s')))
    unfolding find_row
    find_row_lem rows =
        greatest-agree (Holds (is_found key n r s)) (precedes_in order) precedes precedes-agree
          (keep (is_found key n r s) rows) (keep-Holds (is_found key n r s) rows)
        ∙ (unfold select_property in select_property_lem key n r s rows)
