-- ===== src/Sqlite/Closing.antt =====
-- The destructor of the SQLite backend (src/db/sqlite.cpp), and the statements that `open` leaves to
-- it.
use dazeus_core.Base.{ℕ, ◌+◌, ◌≡◌, refl, List, [], ◌∷◌, map, Bool, true, if◌then◌else◌}
use dazeus_core.Run.{undefined_behaviour}
use dazeus_core.Requests.{Outcome, returns, throws, crashes}
use dazeus_core.Sqlite.Upgrade.{
  File, Engine, Table, dazeus_properties, dazeus_permissions, try_prepare, prepare_all,
  bootstrap_db,
}

-- a pointer to a statement; where sqlite3_prepare_v2 fails, it is NULL
pub data Handle : Type 0 where
  unset null prepared : Handle

abbrev pub statements : List Table
statements =
    dazeus_properties ∷ dazeus_properties ∷ dazeus_properties ∷ dazeus_properties
    ∷ dazeus_permissions ∷ dazeus_permissions ∷ dazeus_permissions ∷ []

-- the pointers after the statements from the `i`-th on are prepared, up to the first that fails
unfoldable pub handles : Engine → File → ℕ → List Table → List Handle
unfolding try_prepare
handles e file i [] = []
handles e file i (table ∷ tables) =
    let later = handles e file (i + 1) tables in
    elim (try_prepare e file i table) [
      | returns _ ↦ prepared ∷ later
      | throws why ↦ null ∷ map (λ _. unset) tables
      | crashes why ↦ null ∷ map (λ _. unset) tables
    ]

-- `sqlite3_finalize`, which does nothing with NULL
unfoldable pub finalize_all : List Handle → Outcome (Unit {0})
finalize_all [] = returns tt
finalize_all (unset ∷ rest) = crashes undefined_behaviour
finalize_all (null ∷ rest) = finalize_all rest
finalize_all (prepared ∷ rest) = finalize_all rest

-- the destructor; the first argument is whether `conn_` is set
unfoldable pub close_database : Bool → List Handle → Outcome (Unit {0})
unfolding finalize_all
close_database connected pointers = if connected then finalize_all pointers else returns tt

prepare_all-finalize_all :
    (e : Engine) (file : File) (i : ℕ) (tables : List Table)
    → prepare_all e file i tables ≡ returns tt
    → finalize_all (handles e file i tables) ≡ returns tt
unfolding prepare_all handles finalize_all
prepare_all-finalize_all e file i [] h = refl
prepare_all-finalize_all e file i (table ∷ tables) h =
    after (try_prepare e file i table) (prepare_all-finalize_all e file (i + 1) tables) h
  where
    after :
        (o : Outcome Unit)
        → (prepare_all e file (i + 1) tables ≡ returns tt
            → finalize_all (handles e file (i + 1) tables) ≡ returns tt)
        → elim o [
          | returns _ ↦ prepare_all e file (i + 1) tables
          | throws why ↦ throws why
          | crashes why ↦ crashes why
        ]
          ≡ returns tt
        → finalize_all (elim o [
          | returns _ ↦ prepared ∷ handles e file (i + 1) tables
          | throws why ↦ null ∷ map (λ _. unset) tables
          | crashes why ↦ null ∷ map (λ _. unset) tables
        ])
          ≡ returns tt
    after (returns _) later h = later h
    after (throws why) later h = absurd cc
    after (crashes why) later h = absurd cc

-- The destructor finalizes all statements where bootstrapDB has returned.
bootstrap_db-close_database :
    (e : Engine) (file : File)
    → bootstrap_db e file ≡ returns tt
    → close_database true (handles e file 0 statements) ≡ returns tt
unfolding bootstrap_db close_database
bootstrap_db-close_database e file h = prepare_all-finalize_all e file 0 statements h
