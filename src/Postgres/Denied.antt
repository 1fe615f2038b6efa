-- ===== src/Postgres/Denied.antt =====
-- The permissions of the PostgreSQL backend.
use dazeus_core.Base.{◌≡◌, refl, Bool, true, is_empty, if◌then◌else◌, Option, none, some}
use dazeus_core.Text.{Str, str_eq, lit}
use dazeus_core.Requests.{Outcome, returns, throws, crashes}
use dazeus_core.Sqlite.Rows.{Tables}
use dazeus_core.Postgres.{
  Server, prepared_as, bootstrap_names, asked_name, unless, exec, send_named, reading,
  ask_permission,
}

-- a call that throws and leaves the tables
abbrev pub Denies : {A : Type 0} → Tables → Tables × Outcome A → Type 0
Denies t (t', returns a) = ⊥
Denies t (t', throws why) = t' ≡ t
Denies t (t', crashes why) = ⊥

-- The statement that hasPermission asks for is not among those that were prepared: it throws, whatever
-- permissions are stored and whatever the default is.
pub ask_permission-Denies :
    (v : Server) (t : Tables) (name network receiver sender : Str) (default_permission : Bool)
    → Denies t (ask_permission v t name network receiver sender default_permission)
unfolding ask_permission exec send_named reading prepared_as bootstrap_names lit str_eq
ask_permission-Denies v t name network receiver sender default_permission = thrown v.start
  where
    thrown :
        (o : Option Str)
        → Denies t (
            reading v t
              (unless o (throws (v.unknown asked_name)))
              (λ found. if is_empty found then default_permission else true))
    thrown none = refl
    thrown (some msg) = refl
