-- ===== src/Sqlite/HalfDone.antt =====
-- The upgrade of the SQLite database that stops between its two tables.
use dazeus_core.Base.{
  ℕ, ◌+◌, ◌≡◌, refl, ◌∙◌, Option, none, some, List, [], ◌∷◌, ◌++◌, ◌⊎◌, inl, inr, Option-cases,
}
use dazeus_core.Text.Decimal.{decimal}
use dazeus_core.Int.{pos}
use dazeus_core.Text.{Str, lit}
use dazeus_core.Requests.{Outcome, returns, throws, crashes}
use dazeus_core.Sqlite.Rows.{Property, Permission, keep}
use dazeus_core.Sqlite.Upgrade.{
  File, Engine, Query, dazeus_properties, find_table, find_version, create_properties,
  create_permissions, is_version, effect, execute, version_of, read_version, run_upgrades, store,
  upgrade_from, upgrade_db, bootstrap, open_database,
}

-- a file without tables, and one where the first table is there and the second is not
abbrev pub empty_file : File
empty_file = record { properties = none; permissions = none }

abbrev pub half_done : File
half_done = record { properties = some []; permissions = none }

abbrev pub Throws : {A : Type 0} → Outcome A → Type 0
Throws (returns _) = ⊥
Throws (throws why) = Unit
Throws (crashes why) = ⊥

-- an opening that throws and leaves the file
unfoldable pub Refuses : File → File × Outcome Unit → Type 0
Refuses file result = (result.0 ≡ file) × Throws result.1

module _ (e : Engine) where
  execute-none :
      (q : Query) (file : File) → e.exec q file ≡ none → execute e q file ≡ effect e q file
  unfolding execute
  execute-none q file h = rw (h, execute) refl

  execute-some :
      (q : Query) (file : File) (msg : Str) → e.exec q file ≡ some msg → execute e q file ≡ inl msg
  unfolding execute
  execute-some q file msg h = rw (h, execute) refl

  abbrev failed : ℕ → Str → Outcome (Unit {0})
  failed i msg =
      throws (lit "Could not run upgrade " ++ (decimal i ++ (lit ", got error: " ++ msg)))

  run_upgrades-inl :
      (i : ℕ) (q : Query) (qs : List Query) (file : File) (msg : Str)
      → execute e q file ≡ inl msg
      → run_upgrades e i (q ∷ qs) file ≡ (file, failed i msg)
  unfolding run_upgrades
  run_upgrades-inl i q qs file msg h = rw (h, run_upgrades) refl

  run_upgrades-inr :
      (i : ℕ) (q : Query) (qs : List Query) (file next : File)
      → execute e q file ≡ inr next
      → run_upgrades e i (q ∷ qs) file ≡ run_upgrades e (i + 1) qs next
  unfolding run_upgrades
  run_upgrades-inr i q qs file next h = rw (h, run_upgrades) refl

module _ (e : Engine) (rows : List Property) (permissions : Option (List Permission)) where
  abbrev file : File
  file = record { properties = some rows; permissions = permissions }

  read_version-none : keep is_version rows ≡ [] → read_version e file ≡ returns (pos 0)
  unfolding read_version version_of
  read_version-none h = after (execute e find_version file)
    where
      after :
          (o : Str ⊎ File)
          → elim o [
            | inl msg ↦ Outcome.returns (pos 0)
            | inr _ ↦ version_of e (keep is_version rows)
          ]
            ≡ Outcome.returns (pos 0)
      after (inl msg) = refl
      after (inr _) = rw h refl

  run_upgrades-Refuses :
      Refuses file (store e (run_upgrades e 0 (create_properties ∷ create_permissions ∷ []) file))
  unfolding Refuses effect store
  run_upgrades-Refuses = elim (Option-cases (e.exec create_properties file)) [
    | inl h ↦
        at {msg = e.exists_already dazeus_properties} (execute-none e create_properties file h)
    | inr (msg, h) ↦ at (execute-some e create_properties file msg h)
  ]
    where
      at :
          {msg : Str}
          → execute e create_properties file ≡ inl msg
          → Refuses file
              (store e (run_upgrades e 0 (create_properties ∷ create_permissions ∷ []) file))
      at {msg} h =
          rw (run_upgrades-inl e 0 create_properties (create_permissions ∷ []) file msg h)
            (refl, tt)

  bootstrap-Refuses : (r : File × Outcome Unit) → Refuses file r → Refuses file (bootstrap e r)
  unfolding bootstrap Refuses
  bootstrap-Refuses (f, returns _) h = elim h.1 [ ]
  bootstrap-Refuses (f, throws why) h = h
  bootstrap-Refuses (f, crashes why) h = h

  upgrade_db-Refuses : keep is_version rows ≡ [] → Refuses file (upgrade_db e file)
  unfolding upgrade_db
  upgrade_db-Refuses h = after (execute e find_table file)
    where
      after :
          (o : Str ⊎ File)
          → Refuses file (elim o [
            | inl msg ↦ (file, Outcome.throws (lit "Failed to retrieve database version: " ++ msg))
            | inr _ ↦ upgrade_from e file (read_version e file)
          ])
      after (inl msg) = unfold Refuses in (refl, tt)
      after (inr _) = rw (read_version-none h) (unfold upgrade_from in run_upgrades-Refuses)

  -- where the table of properties has no version, an opening finds version 0 and creates the table
  -- again
  open_database-Refuses : keep is_version rows ≡ [] → Refuses file (open_database e file)
  unfolding open_database Refuses
  open_database-Refuses h = elim (Option-cases e.open_fails) [
    | inl g ↦ rw (g, Throws) (bootstrap-Refuses (upgrade_db e file) (upgrade_db-Refuses h))
    | inr (why, g) ↦ rw (g, Throws) (refl, tt)
  ]

module _ (e : Engine) (msg : Str) where
  first_upgrade :
      e.exec create_properties empty_file ≡ none
      → e.exec create_permissions half_done ≡ some msg
      → run_upgrades e 0 (create_properties ∷ create_permissions ∷ []) empty_file
        ≡ (half_done, failed e 1 msg)
  first_upgrade p q =
      rw
        (run_upgrades-inr e 0 create_properties (create_permissions ∷ []) empty_file half_done
          (execute-none e create_properties empty_file p ∙ (unfold effect in refl)))
        (run_upgrades-inl e 1 create_permissions [] half_done msg
          (execute-some e create_permissions half_done msg q))

  first_half :
      e.open_fails ≡ none
      → e.exec find_table empty_file ≡ none
      → e.exec create_properties empty_file ≡ none
      → e.exec create_permissions half_done ≡ some msg
      → open_database e empty_file ≡ (half_done, failed e 1 msg)
  unfolding open_database upgrade_db read_version upgrade_from store bootstrap
  first_half h t p q =
      let found : execute e find_table empty_file ≡ inr empty_file =
        execute-none e find_table empty_file t ∙ (unfold effect in refl) in
      rw (h, open_database) (rw (found, upgrade_db) (rw (first_upgrade p q) refl))

-- An upgrade is not one transaction: if the opening of an empty database creates the table of the
-- properties and then fails to create that of the permissions, no later opening of the file returns,
-- whatever SQLite answers then: it throws and leaves the file.
pub open_database-stuck :
    (e later : Engine) (msg : Str)
    → e.open_fails ≡ none
    → e.exec find_table empty_file ≡ none
    → e.exec create_properties empty_file ≡ none
    → e.exec create_permissions half_done ≡ some msg
    → ((open_database e empty_file).0 ≡ half_done)
      × Refuses half_done (open_database later (open_database e empty_file).0)
open_database-stuck e later msg h t p q =
    rw (first_half e msg h t p q) (refl, open_database-Refuses later [] none (unfold keep in refl))
