-- ===== src/Admins/Serve.antt =====
-- A request on the routes of `/admin/administrators` that change accounts, in one step: `require_api_key`, `require_superuser`, `acting_admin_name`, and
-- the route, in the order in which they are called.
use sysible_controller.Prelude.{ℕ, String, Bool, Option, none, some, List, [], ◌∷◌, if◌then◌else◌}
use sysible_controller.Login.Session.{Accounts}
use sysible_controller.Admins.Gate.{require_superuser, acting_admin_name}
use sysible_controller.Admins.Policy.{Policy}
use sysible_controller.Admins.Routes.{
  Added, Outcome, refuse, add_administrator_route, remove_administrator_route,
  set_administrator_role_route, set_administrator_sudo_connect_route,
  reset_administrator_password_route,
}

pub data Call : Type 0 where
  add : Policy → Added → Call
  remove : String → Call
  set_role : String → String → Call
  set_sudo_connect : String → Bool → Call
  -- the username, the new password, and the hash and salt that `hash_password` gives for it
  reset_password : String → Policy → String → String → String → Call

-- `has_key` is whether the request has the key of the API
pub record Request : Type 0 where
  pub has_key : Bool
  pub token : String
  pub now : ℕ
  pub call : Call

module _ (digest strip lower : String → String) where
  unfoldable pub route : ℕ → Call → String → Accounts → Outcome
  unfolding add_administrator_route remove_administrator_route set_administrator_role_route
      set_administrator_sudo_connect_route reset_administrator_password_route
  route now (add policy body) acting db =
      add_administrator_route strip lower now policy body acting db
  route now (remove username) acting db = remove_administrator_route username acting db
  route now (set_role username role) acting db =
      set_administrator_role_route strip lower username role acting db
  route now (set_sudo_connect username allowed) acting db =
      set_administrator_sudo_connect_route username allowed acting db
  route now (reset_password username policy new_password hash salt) acting db =
      reset_administrator_password_route username policy new_password hash salt acting db

  -- in the name of the session
  abbrev pub act : ℕ → Call → String × Accounts → Outcome
  act now call (acting, db) = route now call acting db

  abbrev pub enter : String → ℕ → Call → Option ℕ × Accounts → Outcome
  enter token now call (some status, db) = refuse status db
  enter token now call (none, db) = act now call (acting_admin_name digest token now db)

  unfoldable pub serve : Request → Accounts → Outcome
  unfolding require_superuser acting_admin_name route
  serve r db =
      if r.has_key
      then enter r.token r.now r.call (require_superuser digest r.token r.now db)
      else refuse 401 db

  -- requests one after the other
  unfoldable pub serve_all : List Request → Accounts → Accounts
  unfolding serve
  serve_all [] db = db
  serve_all (r ∷ rs) db = serve_all rs (serve r db).db
