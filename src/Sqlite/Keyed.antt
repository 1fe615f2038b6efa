-- ===== src/Sqlite/Keyed.antt =====
-- The primary keys of the two tables of the SQLite backend.
use dazeus_core.Base.{
  ◌≡◌, refl, sym, ◌∙◌, Bool, true, false, not, List, [], ◌∷◌, ◌++◌, All, All-append, arith,
  is_empty, Bool-cases, inl, inr, if◌then◌else◌,
}
use dazeus_core.Text.{Str, str_eq}
use dazeus_core.Requests.{Outcome, returns, throws, crashes}
use dazeus_core.Sqlite.{
  Faults, remove_property, update_property, add_permission, remove_permission, parameters, commit,
  ◌>>=◌, bind_all, step, set_property, change_permissions, set_permission, unset_permission,
}
use dazeus_core.Sqlite.Rows.{
  Property, Permission, Tables, keep, is_at, delete_property, replace_property, is_permission,
  delete_permission, replace_permission,
}
use dazeus_core.Sqlite.Ordered.{keep-All}
use dazeus_core.Sqlite.Stored.{row_of, Writes, set_property-Writes}

-- No two rows are alike.
unfoldable Apart : {A : Type 0} → (A → A → Bool) → List A → Type 0
Apart alike [] = Unit
Apart alike (x ∷ xs) = All (λ y. alike x y ≡ false) xs × Apart alike xs

same_place : Property → Property → Bool
same_place x y = is_at x.key x.network x.receiver x.sender y

-- A key and a scope have one row at most, a permission in a scope too.
unfoldable pub IsKeyed : Tables → Type 0
unfolding Apart same_place
IsKeyed t = Apart same_place t.properties × Apart is_permission t.permissions

module _ {A : Type 0} (alike : A → A → Bool) where
  keep-Apart : (p : A → Bool) (xs : List A) → Apart alike xs → Apart alike (keep p xs)
  unfolding keep Apart
  keep-Apart p [] a = tt
  keep-Apart p (x ∷ xs) a = elim (Bool-cases (p x)) [
    | inl e ↦ rw e (keep-All (λ y. alike x y ≡ false) p xs a.0, keep-Apart p xs a.1)
    | inr e ↦ rw e (keep-Apart p xs a.1)
  ]

  append-Apart :
      (x : A) (xs : List A)
      → All (λ y. alike y x ≡ false) xs
      → Apart alike xs
      → Apart alike (xs ++ x ∷ [])
  unfolding Apart
  append-Apart x [] h a = (tt, tt)
  append-Apart x (y ∷ ys) h a =
      (All-append (λ z. alike y z ≡ false) ys (x ∷ []) a.0 (h.0, tt), append-Apart x ys h.1 a.1)

  -- a row that replaces those that are like it
  replace-Apart :
      ((x y : A) → alike x y ≡ alike y x)
      → (x : A) (xs : List A) → Apart alike xs
      → Apart alike (keep (λ y. not (alike x y)) xs ++ x ∷ [])
  unfolding keep
  replace-Apart comm x xs a =
      append-Apart x (keep (λ y. not (alike x y)) xs) (others xs)
        (keep-Apart (λ y. not (alike x y)) xs a)
    where
      others : (ys : List A) → All (λ y. alike y x ≡ false) (keep (λ y. not (alike x y)) ys)
      others [] = tt
      others (y ∷ ys) = elim (Bool-cases (alike x y)) [
        | inl e ↦ rw e (others ys)
        | inr e ↦ rw e (sym (comm x y) ∙ e, others ys)
      ]

str_eq_comm : (a b : Str) → str_eq a b ≡ str_eq b a
unfolding str_eq
str_eq_comm [] [] = refl
str_eq_comm [] (d ∷ b) = refl
str_eq_comm (c ∷ a) [] = refl
str_eq_comm (c ∷ a) (d ∷ b) = rw (str_eq_comm a b) (ground arith)

same_place_comm : (x y : Property) → same_place x y ≡ same_place y x
unfolding same_place is_at
same_place_comm x y =
    rw
      (
        str_eq_comm x.key y.key,
        str_eq_comm x.network y.network,
        str_eq_comm x.receiver y.receiver,
        str_eq_comm x.sender y.sender,
      )
      refl

is_permission_comm : (x y : Permission) → is_permission x y ≡ is_permission y x
unfolding is_permission
is_permission_comm x y =
    rw
      (
        str_eq_comm x.permission y.permission,
        str_eq_comm x.network y.network,
        str_eq_comm x.receiver y.receiver,
        str_eq_comm x.sender y.sender,
      )
      refl

-- the tables after a call: they are as before, or they are the changed ones
after_call : (t t' : Tables) (o : Outcome Unit) → IsKeyed t → IsKeyed t' → IsKeyed (commit t t' o).0
unfolding commit
after_call t t' (returns _) k k' = k'
after_call t t' (throws why) k k' = k
after_call t t' (crashes why) k k' = k

module _ (f : Faults) where
  set_property-IsKeyed :
      (t : Tables) (variable value network receiver sender : Str)
      → IsKeyed t
      → IsKeyed (set_property f t variable value network receiver sender).0
  unfolding set_property IsKeyed delete_property replace_property same_place
  set_property-IsKeyed t variable value network receiver sender k =
      let row = row_of variable value network receiver sender in
      let statement = if is_empty value then remove_property else update_property in
      after_call t _
        (bind_all f statement 1 (variable ∷ value ∷ network ∷ receiver ∷ sender ∷ []) >>= λ _.
          step f statement t 0)
        k (changed (is_empty value) row, k.1)
    where
      changed :
          (b : Bool) (row : Property)
          → Apart same_place (
              if b
              then delete_property row.key row.network row.receiver row.sender t.properties
              else replace_property row t.properties)
      changed true row = keep-Apart same_place (λ y. not (same_place row y)) t.properties k.0
      changed false row = replace-Apart same_place same_place_comm row t.properties k.0

  -- Where no two rows of the tables have the same primary key: set_property stores the value at its key
  -- and scope, an empty value removes what is stored there, and all else stays; where a call of
  -- SQLite fails it throws and leaves the tables. No two rows have the same key after it, nor after
  -- set_permission and unset_permission.
  pub changes_lem :
      (t : Tables) (variable value network receiver sender : Str) (b : Bool) (p : Permission)
      → IsKeyed t
      → Writes t
          (row_of variable value network receiver sender)
          (set_property f t variable value network receiver sender)
        × IsKeyed (set_property f t variable value network receiver sender).0
        × IsKeyed (set_permission f t b p).0
        × IsKeyed (unset_permission f t p).0
  unfolding set_permission unset_permission change_permissions IsKeyed delete_permission
      replace_permission
  changes_lem t variable value network receiver sender b p k = (
    set_property-Writes f t variable value network receiver sender,
    set_property-IsKeyed t variable value network receiver sender k,
    after_call t _ (bind_all f add_permission 1 (parameters p) >>= λ _. step f add_permission t 0) k
        (k.0, replace-Apart is_permission is_permission_comm p t.permissions k.1),
    after_call t _
        (bind_all f remove_permission 1 (parameters p) >>= λ _. step f remove_permission t 0) k
        (k.0, keep-Apart is_permission (λ y. not (is_permission p y)) t.permissions k.1),
  )
