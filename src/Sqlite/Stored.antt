-- ===== src/Sqlite/Stored.antt =====
-- What the SQLite backend stores: for each key and scope a value, which is empty where there is
-- none.
use dazeus_core.Base.{
  ◌≡◌, refl, ℕ, ◌+◌, List, [], ◌∷◌, none, arith, if◌then◌else◌, is_empty, Option-cases, inl, inr,
}
use dazeus_core.Text.{Str}
use dazeus_core.Json.{c_str}
use dazeus_core.Requests.{Outcome, returns, throws, crashes}
use dazeus_core.Sqlite.{
  Faults, Statement, remove_property, update_property, commit, ◌>>=◌, try_bind, bind_all, step,
  first_value, set_property,
}
use dazeus_core.Sqlite.Rows.{Property, Tables, is_at, delete_property, replace_property}
use dazeus_core.Sqlite.Places.{row_at-delete, row_at-replace}
use dazeus_core.Sqlite.Scoped.{row_at}

-- The value that is stored for a key at a scope.
unfoldable pub value_at : Tables → Str → Str → Str → Str → Str
unfolding first_value row_at
value_at t key network receiver sender =
    first_value (row_at key t.properties network receiver sender)

-- A call that writes `row`: either it returns, the value of `row` is stored at its place, the
-- values at all other places stay, and so do the permissions; or it throws, and the tables stay.
unfoldable pub Writes : Tables → Property → Tables × Outcome Unit → Type 0
Writes t row (t', returns _) =
    ((key network receiver sender : Str)
      → value_at t' key network receiver sender ≡ (
          if is_at key network receiver sender row
          then c_str row.value
          else value_at t key network receiver sender))
    × (t'.permissions ≡ t.permissions)
Writes t row (t', throws why) = t' ≡ t
Writes t row (t', crashes why) = ⊥

-- No call of SQLite fails.
unfoldable pub AllWell : Faults → Type 0
AllWell f =
    ((statement : Statement) (i : ℕ) (value : Str) → f.bind statement i value ≡ none)
    × ((statement : Statement) (t : Tables) (rows : ℕ) → f.step statement t rows ≡ none)

abbrev pub Calm : {A : Type 0} → Outcome A → Type 0
Calm (returns _) = Unit
Calm (throws why) = Unit
Calm (crashes why) = ⊥

abbrev pub row_of : Str → Str → Str → Str → Str → Property
row_of key value network receiver sender = record {
  key = key;
  value = value;
  network = network;
  receiver = receiver;
  sender = sender;
}

Calm-bind :
    {A B : Type 0} (m : Outcome A) (g : A → Outcome B)
    → Calm m
    → ((a : A) → Calm (g a))
    → Calm (m >>= g)
Calm-bind (returns a) g c h = h a
Calm-bind (throws why) g c h = tt
Calm-bind (crashes why) g c h = elim c [ ]

-- what a call does to the tables: nothing, or the change
changed_by :
    (t t' : Tables) (row : Property) (o : Outcome Unit)
    → Calm o
    → Writes t row (t', returns tt)
    → Writes t row (commit t t' o)
unfolding Writes commit
changed_by t t' row (returns _) c h = h
changed_by t t' row (throws why) c h = refl
changed_by t t' row (crashes why) c h = c

module _ (f : Faults) where
  try_bind-Calm : (statement : Statement) (i : ℕ) (v : Str) → Calm (try_bind f statement i v)
  unfolding try_bind
  try_bind-Calm statement i v = elim (Option-cases (f.bind statement i v)) [
    | inl e ↦ rw (e, Calm) tt
    | inr (why, e) ↦ rw (e, Calm) tt
  ]

  step-Calm : (statement : Statement) (t : Tables) (rows : ℕ) → Calm (step f statement t rows)
  unfolding step
  step-Calm statement t rows = elim (Option-cases (f.step statement t rows)) [
    | inl e ↦ rw (e, Calm) tt
    | inr (why, e) ↦ rw (e, Calm) tt
  ]

  bind_all-Calm :
      (statement : Statement) (i : ℕ) (values : List Str) → Calm (bind_all f statement i values)
  unfolding bind_all
  bind_all-Calm statement i [] = tt
  bind_all-Calm statement i (v ∷ vs) =
      Calm-bind (try_bind f statement i v) (λ _. bind_all f statement (i + 1) vs)
        (try_bind-Calm statement i v) (λ _. bind_all-Calm statement (i + 1) vs)

  pub called-Calm :
      (statement : Statement) (values : List Str) (t : Tables)
      → Calm (bind_all f statement 1 values >>= λ _. step f statement t 0)
  called-Calm statement values t =
      Calm-bind (bind_all f statement 1 values) (λ _. step f statement t 0)
        (bind_all-Calm statement 1 values) (λ _. step-Calm statement t 0)

  value_at-changed :
      (t : Tables) (variable value network receiver sender : Str) (k n r s : Str)
      → value_at
          (record t {
            properties =
                if is_empty value
                then delete_property variable network receiver sender t.properties
                else replace_property (row_of variable value network receiver sender) t.properties;
          })
          k
          n
          r
          s
        ≡ (if is_at k n r s (row_of variable value network receiver sender)
            then c_str value
            else value_at t k n r s)
  unfolding value_at first_value c_str
  value_at-changed t variable [] network receiver sender k n r s =
      rw (row_at-delete (row_of variable [] network receiver sender) k n r s t.properties)
        (ground arith)
  value_at-changed t variable (c ∷ value) network receiver sender k n r s =
      rw (row_at-replace (row_of variable (c ∷ value) network receiver sender) k n r s t.properties)
        (ground arith)

  -- a call that writes, with `Writes` of the row
  pub set_property-Writes :
      (t : Tables) (variable value network receiver sender : Str)
      → Writes t
          (row_of variable value network receiver sender)
          (set_property f t variable value network receiver sender)
  unfolding set_property Writes
  set_property-Writes t variable value network receiver sender =
      let statement = if is_empty value then remove_property else update_property in
      let values = variable ∷ value ∷ network ∷ receiver ∷ sender ∷ [] in
      changed_by t _ (row_of variable value network receiver sender)
        (bind_all f statement 1 values >>= λ _. step f statement t 0)
        (called-Calm statement values t)
        (value_at-changed t variable value network receiver sender, refl)
