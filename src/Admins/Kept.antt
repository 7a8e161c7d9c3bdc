-- ===== src/Admins/Kept.antt =====
-- What every sequence of requests keeps: a superuser.
use sysible_controller.Prelude.{◌≤◌, String, List, [], ◌∷◌}
use sysible_controller.Login.Session.{Accounts}
use sysible_controller.Admins.Table.{count_administrators_by_role}
use sysible_controller.Admins.Counts.{IsTable}
use sysible_controller.Admins.Serve.{Request, serve, serve_all}
use sysible_controller.Admins.Change.{Change-IsTable, Change-superuser}
use sysible_controller.Admins.Refines.{serve-Change}

module _ (digest strip lower : String → String) where
  -- No sequence of requests on the five routes of `/admin/administrators` that change accounts, one after the
  -- other, takes the last superuser away: from a table with one row per username and a superuser, they lead to
  -- a table with one row per username and a superuser.
  pub superuser_stays :
      (rs : List Request) (db : Accounts)
      → IsTable db.administrators
      → 1 ≤ count_administrators_by_role "superuser" db
      → let db' = serve_all digest strip lower rs db in
        IsTable db'.administrators × (1 ≤ count_administrators_by_role "superuser" db')
  unfolding serve_all
  superuser_stays [] db t h = (t, h)
  superuser_stays (r ∷ rs) db t h =
      let change = serve-Change digest strip lower r db in
      superuser_stays rs (serve digest strip lower r db).db (Change-IsTable _ _ change t)
        (Change-superuser _ _ change t h)
