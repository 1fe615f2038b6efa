-- ===== src/Sqlite/Fitting.antt =====
-- The condition of find_property on one scope, and what its order does with it.
use dazeus_core.Base.{
  ℕ, ◌≡◌, refl, sym, ◌∙◌, Bool, true, false, not, ◌&&◌, ◌||◌, [], ◌∷◌, Option, none, some, arith,
  if◌then◌else◌, is_empty,
}
use mathlib.Core.Path.{fun_ext}
use dazeus_core.Text.{Str, str_eq, str_lt, str_eq_iff}
use dazeus_core.Sqlite.Rows.{fits}
use dazeus_core.Sqlite.Ordered.{or_else}

-- A scope that is given, and then the scope that holds for all.
abbrev pub narrow {ℓ} : {A : Type ℓ} → Str → (Str → Option A) → Option A
narrow scope look = or_else (look scope) (look [])

pub fits-eq : (wanted u : Str) → fits wanted u ≡ true → is_empty u ≡ false → u ≡ wanted
unfolding fits
fits-eq wanted u h e = (str_eq_iff u wanted).0 (ground (arith, h, e))

-- two texts that fit and are not empty are the same
both_fit :
    (wanted u v : Str)
    → fits wanted u ≡ true
    → fits wanted v ≡ true
    → is_empty u ≡ false
    → is_empty v ≡ false
    → str_eq u v ≡ true
both_fit wanted u v fu fv eu ev =
    (str_eq_iff u v).1 (fits-eq wanted u fu eu ∙ sym (fits-eq wanted v fv ev))

-- the order on one of the three texts, and then another one
pub field_lt :
    (wanted u v : Str) (later : Bool)
    → fits wanted u ≡ true
    → fits wanted v ≡ true
    → (if str_eq u v then later else str_lt u v)
      ≡ (if not (is_empty u) then not (is_empty v) && later else not (is_empty v) || later)
unfolding fits str_eq str_lt
field_lt wanted [] [] later fu fv = refl
field_lt wanted [] (c ∷ v) later fu fv = refl
field_lt wanted (c ∷ u) [] later fu fv = refl
field_lt wanted (c ∷ u) (d ∷ v) later fu fv =
    ground (arith, both_fit wanted (c ∷ u) (d ∷ v) fu fv refl refl)

-- two tests of one text: it fits and is given, or it fits and is empty
unfoldable pub fits_given : (wanted u : Str) → Bool
fits_given wanted u = fits wanted u && not (is_empty u)

unfoldable pub fits_wide : (wanted u : Str) → Bool
fits_wide wanted u = fits wanted u && not (not (is_empty u))

fits_wide_lem : (wanted u : Str) → fits_wide wanted u ≡ str_eq u []
unfolding fits_wide fits str_eq
fits_wide_lem wanted [] = ground arith
fits_wide_lem wanted (c ∷ u) = ground arith

fits_given-cons : (c : ℕ) (wanted u : Str) → fits_given (c ∷ wanted) u ≡ str_eq u (c ∷ wanted)
unfolding fits_given fits str_eq
fits_given-cons c wanted [] = ground arith
fits_given-cons c wanted (d ∷ u) = ground arith

fits_given-nil : (u : Str) → fits_given [] u ≡ false
unfolding fits_given fits str_eq
fits_given-nil [] = refl
fits_given-nil (d ∷ u) = refl

twice : {A : Type 0} (o : Option A) → o ≡ or_else o o
twice none = refl
twice (some a) = refl

-- A group that is looked at once for the texts that are given and once for the empty ones is looked
-- at in a narrow scope.
pub narrow_lem :
    {A : Type 0} (wanted : Str) (look : (Str → Bool) → Option A)
    → look (λ u. false) ≡ none
    → or_else (look (fits_given wanted)) (look (fits_wide wanted))
      ≡ narrow wanted (λ scope. look (λ u. str_eq u scope))
narrow_lem [] look e =
    rw (fun_ext (fits_given-nil), fun_ext (fits_wide_lem []), e) (twice (look (λ u. str_eq u [])))
narrow_lem (c ∷ wanted) look e =
    rw (fun_ext (fits_given-cons c wanted), fun_ext (fits_wide_lem (c ∷ wanted))) refl

pub str_lt-false : (u v : Str) → str_lt u v ≡ (if str_eq u v then false else str_lt u v)
unfolding str_lt str_eq
str_lt-false [] [] = refl
str_lt-false [] (d ∷ v) = refl
str_lt-false (c ∷ u) [] = refl
str_lt-false (c ∷ u) (d ∷ v) = ground (arith, str_lt-false u v)
