-- ===== src/Sqlite/Places.antt =====
-- What stands at a place of the properties after a row is taken out or replaced.
use dazeus_core.Base.{
  ◌≡◌, refl, ◌∙◌, Bool, true, false, List, [], ◌∷◌, ◌++◌, Option, none, some, arith, if◌then◌else◌,
  Bool-cases, inl, inr,
}
use dazeus_core.Text.{Str, str_eq_iff, str_eq_self}
use dazeus_core.Sqlite.Rows.{Property, keep, is_at, delete_property, replace_property}
use dazeus_core.Sqlite.Ordered.{first, or_else}
use dazeus_core.Sqlite.Scoped.{row_at}

module _ (k n r s k' n' r' s' : Str) where
  -- one row stands at two places only if they are the same
  is_at-both :
      (x y : Property)
      → is_at k n r s x ≡ true
      → is_at k n r s y ≡ true
      → is_at k' n' r' s' x ≡ is_at k' n' r' s' y
  unfolding is_at
  is_at-both x y h g =
      rw
        (
          (str_eq_iff x.key k).0 (ground (arith, h)),
          (str_eq_iff x.network n).0 (ground (arith, h)),
          (str_eq_iff x.receiver r).0 (ground (arith, h)),
          (str_eq_iff x.sender s).0 (ground (arith, h)),
          (str_eq_iff y.key k).0 (ground (arith, g)),
          (str_eq_iff y.network n).0 (ground (arith, g)),
          (str_eq_iff y.receiver r).0 (ground (arith, g)),
          (str_eq_iff y.sender s).0 (ground (arith, g)),
        )
        refl

pub is_at_self : (x : Property) → is_at x.key x.network x.receiver x.sender x ≡ true
unfolding is_at
is_at_self x =
    rw (str_eq_self x.key, str_eq_self x.network, str_eq_self x.receiver, str_eq_self x.sender) refl

if_apart :
    {A : Type 0} (b c : Bool) (u v w : A)
    → (b ≡ true → c ≡ true → ⊥)
    → (if b then u else (if c then v else w)) ≡ (if c then v else (if b then u else w))
if_apart true true u v w h = elim (h refl refl) [ ]
if_apart true false u v w h = refl
if_apart false true u v w h = refl
if_apart false false u v w h = refl

-- The row of a place after the rows of the place of `x` are taken out.
pub row_at-delete :
    (x : Property) (k n r s : Str) (rows : List Property)
    → row_at k (delete_property x.key x.network x.receiver x.sender rows) n r s
      ≡ (if is_at k n r s x then none else row_at k rows n r s)
unfolding row_at delete_property keep first
row_at-delete x k n r s [] = ground arith
row_at-delete x k n r s (y ∷ rows) =
    elim (Bool-cases (is_at x.key x.network x.receiver x.sender y)) [
      | inl e ↦
          rw
            (
              e,
              row_at-delete x k n r s rows,
              is_at-both x.key x.network x.receiver x.sender k n r s y x e (is_at_self x),
            )
            (ground arith)
      | inr e ↦
          rw (e, row_at-delete x k n r s rows)
            (if_apart (is_at k n r s y) (is_at k n r s x) (some y) none (row_at k rows n r s)
              (λ (here : is_at k n r s y ≡ true) (there : is_at k n r s x ≡ true). ground (
                arith,
                is_at_self x,
                e,
                is_at-both k n r s x.key x.network x.receiver x.sender x y there here,
              )))
    ]

pub row_at-append :
    (x : Property) (k n r s : Str) (rows : List Property)
    → row_at k (rows ++ x ∷ []) n r s
      ≡ or_else (row_at k rows n r s) (if is_at k n r s x then some x else none)
unfolding row_at first
row_at-append x k n r s [] = refl
row_at-append x k n r s (y ∷ rows) = elim (Bool-cases (is_at k n r s y)) [
  | inl e ↦ rw e refl
  | inr e ↦ rw e (row_at-append x k n r s rows)
]

pub row_at-replace :
    (x : Property) (k n r s : Str) (rows : List Property)
    → row_at k (replace_property x rows) n r s
      ≡ (if is_at k n r s x then some x else row_at k rows n r s)
unfolding replace_property
row_at-replace x k n r s rows =
    row_at-append x k n r s (delete_property x.key x.network x.receiver x.sender rows)
    ∙ rw (row_at-delete x k n r s rows) (last (is_at k n r s x) (row_at k rows n r s))
  where
    last :
        (b : Bool) (o : Option Property)
        → or_else (if b then none else o) (if b then some x else none) ≡ (if b then some x else o)
    last true o = refl
    last false none = refl
    last false (some y) = refl
