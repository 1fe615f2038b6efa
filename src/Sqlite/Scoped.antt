-- ===== src/Sqlite/Scoped.antt =====
-- The lookup of a property in the scopes that hold for it, from the narrowest to the widest.
use dazeus_core.Base.{
  ◌≡◌, refl, ◌∙◌, Bool, true, false, not, ◌&&◌, List, Option, none, All, arith, if◌then◌else◌,
  is_empty,
}
use mathlib.Core.Path.{fun_ext, ap₂}
use dazeus_core.Text.{Str, str_eq, str_lt}
use dazeus_core.Sqlite.Rows.{
  Property, keep, greatest, is_at, fits, is_found, precedes, select_property,
}
use dazeus_core.Sqlite.Fitting.{narrow, field_lt, fits_given, fits_wide, narrow_lem, str_lt-false}
use dazeus_core.Sqlite.Ordered.{
  or_else, keep-Holds, keep-All, greatest-split, first, keep-keep, greatest-first, first-false,
}

-- The value that stands exactly at a scope.
unfoldable pub row_at : Str → List Property → Str → Str → Str → Option Property
unfolding first is_at
row_at key rows network receiver sender = first (is_at key network receiver sender) rows

-- the rows of a group, by its tests of network, receiver and sender
abbrev group : Str → (Str → Bool) → (Str → Bool) → (Str → Bool) → Property → Bool
group key n r s row = str_eq row.key key && (n row.network && (r row.receiver && s row.sender))

by_receiver : Property → Property → Bool
by_receiver x y =
    if str_eq x.receiver y.receiver then str_lt x.sender y.sender else str_lt x.receiver y.receiver

by_sender : Property → Property → Bool
by_sender x y = str_lt x.sender y.sender

module _ (key n r s : Str) where
  abbrev IsFound : Property → Type 0
  IsFound row = is_found key n r s row ≡ true

  abbrev given : (Property → Str) → Property → Bool
  given field row = not (is_empty (field row))

  abbrev wide : (Property → Str) → Property → Bool
  wide field row = not (given field row)

  -- the three tests of a row that is found
  found_fits :
      (row : Property)
      → IsFound row
      → (fits n row.network ≡ true) × (fits r row.receiver ≡ true) × (fits s row.sender ≡ true)
  unfolding is_found
  found_fits row h = ground (arith, h)

  split_network :
      (xs : List Property)
      → All IsFound xs
      → greatest precedes xs
        ≡ or_else
            (greatest by_receiver (keep (given (λ x. x.network)) xs))
            (greatest by_receiver (keep (wide (λ x. x.network)) xs))
  unfolding precedes by_receiver
  split_network = greatest-split IsFound (given (λ x. x.network)) precedes by_receiver (λ x y p q.
      field_lt n x.network y.network (by_receiver x y) (found_fits x p).0 (found_fits y q).0)

  split_receiver :
      (xs : List Property)
      → All IsFound xs
      → greatest by_receiver xs
        ≡ or_else
            (greatest by_sender (keep (given (λ x. x.receiver)) xs))
            (greatest by_sender (keep (wide (λ x. x.receiver)) xs))
  unfolding by_receiver by_sender
  split_receiver =
      greatest-split IsFound (given (λ x. x.receiver)) by_receiver by_sender (λ x y p q.
        field_lt r x.receiver y.receiver (by_sender x y) (found_fits x p).1 (found_fits y q).1)

  split_sender :
      (xs : List Property)
      → All IsFound xs
      → greatest by_sender xs
        ≡ or_else
            (greatest (λ x y. false) (keep (given (λ x. x.sender)) xs))
            (greatest (λ x y. false) (keep (wide (λ x. x.sender)) xs))
  unfolding by_sender
  split_sender =
      greatest-split IsFound (given (λ x. x.sender)) by_sender (λ x y. false)
        (λ x y p q.
          str_lt-false x.sender y.sender
          ∙ field_lt s x.sender y.sender false (found_fits x p).2 (found_fits y q).2)

  leaf_test :
      (bn br bs : Str → Bool) (x : Property)
      → (((is_found key n r s x && bn x.network) && br x.receiver) && bs x.sender)
        ≡ group key (λ u. fits n u && bn u) (λ u. fits r u && br u) (λ u. fits s u && bs u) x
  unfolding is_found
  leaf_test bn br bs x = ground arith

  leaf :
      (bn br bs : Str → Bool) (rows : List Property)
      → greatest
          (λ x y. false)
          (keep
            (λ x. bs x.sender)
            (keep (λ x. br x.receiver) (keep (λ x. bn x.network) (keep (is_found key n r s) rows))))
        ≡ first
            (group key (λ u. fits n u && bn u) (λ u. fits r u && br u) (λ u. fits s u && bs u))
            rows
  leaf bn br bs rows =
      rw
        (
          keep-keep (λ x. bn x.network) (is_found key n r s) rows,
          keep-keep (λ x. br x.receiver) (λ x. is_found key n r s x && bn x.network) rows,
          keep-keep (λ x. bs x.sender)
              (λ x. (is_found key n r s x && bn x.network) && br x.receiver) rows,
          greatest-first
              (λ x. ((is_found key n r s x && bn x.network) && br x.receiver) && bs x.sender) rows,
          fun_ext (leaf_test bn br bs),
        )
        refl

  -- the rows of a group
  abbrev look : List Property → (Str → Bool) → (Str → Bool) → (Str → Bool) → Option Property
  look rows pn pr ps = first (group key pn pr ps) rows

  look-none :
      (rows : List Property) (pn pr ps : Str → Bool)
      → ((x : Property) → group key pn pr ps x ≡ false)
      → look rows pn pr ps ≡ none
  look-none rows pn pr ps e = rw (fun_ext e) (first-false rows)

  by_senders :
      (rows : List Property) (bn br : Str → Bool)
      → greatest by_sender
          (keep (λ x. br x.receiver) (keep (λ x. bn x.network) (keep (is_found key n r s) rows)))
        ≡ narrow s
            (λ s'. look rows (λ u. fits n u && bn u) (λ u. fits r u && br u) (λ u. str_eq u s'))
  unfolding fits_given fits_wide
  by_senders rows bn br =
      let found = keep (is_found key n r s) rows in
      let kept =
        keep (λ (x : Property). br x.receiver) (keep (λ (x : Property). bn x.network) found) in
      split_sender kept (
        keep-All IsFound (λ x. br x.receiver) _
          (keep-All IsFound (λ x. bn x.network) found (keep-Holds (is_found key n r s) rows)))
      ∙ ap₂ or_else (leaf bn br (λ u. not (is_empty u)) rows)
          (leaf bn br (λ u. not (not (is_empty u))) rows)
      ∙ narrow_lem s (look rows (λ u. fits n u && bn u) (λ u. fits r u && br u)) (
          look-none rows (λ u. fits n u && bn u) (λ u. fits r u && br u) (λ u. false)
            (λ x. ground arith))

  by_receivers :
      (rows : List Property) (bn : Str → Bool)
      → greatest by_receiver (keep (λ x. bn x.network) (keep (is_found key n r s) rows))
        ≡ narrow r (λ r'.
          narrow s (λ s'. look rows (λ u. fits n u && bn u) (λ u. str_eq u r') (λ u. str_eq u s')))
  unfolding fits_given fits_wide
  by_receivers rows bn =
      let found = keep (is_found key n r s) rows in
      split_receiver (keep (λ x. bn x.network) found)
        (keep-All IsFound (λ x. bn x.network) found (keep-Holds (is_found key n r s) rows))
      ∙ ap₂ or_else (by_senders rows bn (λ u. not (is_empty u)))
          (by_senders rows bn (λ u. not (not (is_empty u))))
      ∙ narrow_lem r
          (λ pr. narrow s (λ s'. look rows (λ u. fits n u && bn u) pr (λ u. str_eq u s')))
          (rw
            (look-none rows (λ u. fits n u && bn u) (λ u. false) (λ u. str_eq u s)
              (λ x. ground arith))
            refl)

  by_networks :
      (rows : List Property)
      → greatest precedes (keep (is_found key n r s) rows)
        ≡ narrow n (λ n'. narrow r (λ r'.
          narrow s (λ s'. look rows (λ u. str_eq u n') (λ u. str_eq u r') (λ u. str_eq u s'))))
  unfolding fits_given fits_wide
  by_networks rows =
      let found = keep (is_found key n r s) rows in
      split_network found (keep-Holds (is_found key n r s) rows)
      ∙ ap₂ or_else (by_receivers rows (λ u. not (is_empty u)))
          (by_receivers rows (λ u. not (not (is_empty u))))
      ∙ narrow_lem n
          (λ pn.
            narrow r (λ r'. narrow s (λ s'. look rows pn (λ u. str_eq u r') (λ u. str_eq u s'))))
          (rw (look-none rows (λ u. false) (λ u. str_eq u r) (λ u. str_eq u s) (λ x. ground arith))
            refl)

  -- The statement find_property finds what the scopes are looked up for one after the other: with the
  -- network that is given before those without, then with the receiver before those without, then
  -- with the sender before those without.
  pub select_property_lem :
      (rows : List Property)
      → select_property key n r s rows
        ≡ narrow n (λ n'. narrow r (λ r'. narrow s (λ s'. row_at key rows n' r' s')))
  unfolding select_property row_at
  select_property_lem rows = by_networks rows
