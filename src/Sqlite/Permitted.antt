-- ===== src/Sqlite/Permitted.antt =====
-- What the SQLite backend answers about permissions, after they are set and unset.
use dazeus_core.Base.{◌≡◌, refl, true}
use dazeus_core.Text.{str_eq_self}
use dazeus_core.Sqlite.Rows.{Permission, is_permission}

is_permission_self : (p : Permission) → is_permission p p ≡ true
unfolding is_permission
is_permission_self p =
    rw
      (
        str_eq_self p.permission,
        str_eq_self p.network,
        str_eq_self p.receiver,
        str_eq_self p.sender,
      )
      refl
