-- ===== src/Admins/Routes.antt =====
-- backend/app.py: the routes on `/admin/administrators`. What a route hands to
-- `log_admin_audit` after the write is its `audited`; where that raises, the write stands.
use Prim.Native.String.{◌++◌}
use sysible_controller.Prelude.{
  ℕ, String, Bool, true, false, not, ◌&&◌, ◌||◌, Option, none, some, [], Dict, lookup, leb, is_some,
  ◌==◌, if◌then◌else◌,
}
use sysible_controller.Login.Session.{Admin, Accounts, effective_role, delete_admin_tokens_for_user}
use sysible_controller.Admins.Table.{
  count_administrators, count_administrators_by_role, get_administrator, add_administrator,
  remove_administrator, set_administrator_role, set_administrator_sudo_connect,
  update_administrator_password,
}
use sysible_controller.Admins.Policy.{Policy, validate_password_against_policy}

pub data Answer : Type 0 where
  -- HTTPException
  error : ℕ → Answer
  -- the status in the body
  done : String → Answer

pub record Audited : Type 0 where
  pub event : String
  pub username : String
  pub detail : String

pub record Outcome : Type 0 where
  pub answer : Answer
  pub db : Accounts
  pub audited : Option Audited

abbrev pub refuse : ℕ → Accounts → Outcome
refuse status db = record { answer = error status; db = db; audited = none }

abbrev pub answer_with : String → Accounts → String → String → String → Outcome
answer_with status db event username detail = record {
  answer = done status;
  db = db;
  audited = some (record { event = event; username = username; detail = detail });
}

abbrev pub is_role : String → Bool
is_role role = role == "superuser" || role == "sysadmin" || role == "auditor"

abbrev pub reaches : Option ℕ → ℕ → Bool
reaches none count = false
reaches (some limit) count = leb limit count

-- ROLE_LIMITS: no role has a limit
abbrev pub role_limits : Dict ℕ
role_limits = []

-- `enforce_role_limit` raises
unfoldable pub enforce_role_limit : String → ℕ → Bool
enforce_role_limit role count = reaches (lookup role role_limits) count

-- `hash_password` gives the salt and the hash; the request's name has passed `_validate_admin_name`
pub record Added : Type 0 where
  pub username : String
  pub password : String
  pub password_salt : String
  pub password_hash : String
  pub role : String

abbrev pub role_or : String → String → String
role_or default role = if role == "" then default else role

abbrev pub answer_added : String → String → String → Bool × Accounts → Outcome
answer_added username role acting (false, db) = refuse 409 db
answer_added username role acting (true, db) =
    answer_with "added" db "administrator_added" username (role ++ " added by " ++ acting)

-- `strip` and `lower` are those of `str`
module _ (strip lower : String → String) where
  unfoldable pub add_as : ℕ → Policy → String → String → Added → Accounts → Outcome
  unfolding add_administrator enforce_role_limit validate_password_against_policy
  add_as now policy acting role body db =
      if not (is_role role)
      then refuse 400 db
      else if enforce_role_limit role (count_administrators_by_role role db)
      then refuse 403 db
      else if is_some (validate_password_against_policy body.password policy)
      then refuse 400 db
      else answer_added (strip body.username) role acting (
          add_administrator now (strip body.username) body.password_hash body.password_salt true
            acting role db)

  unfoldable pub add_administrator_route : ℕ → Policy → Added → String → Accounts → Outcome
  unfolding add_as
  add_administrator_route now policy body acting db =
      if strip body.username == "" || body.password == ""
      then refuse 400 db
      else add_as now policy acting (lower (strip (role_or "sysadmin" body.role))) body db

  unfoldable pub change_role : String → String → String → String → Accounts → Outcome
  unfolding set_administrator_role delete_admin_tokens_for_user enforce_role_limit
  change_role username current new_role acting db =
      if not (is_role new_role)
      then refuse 400 db
      else if new_role == current
      then record { answer = done "unchanged"; db = db; audited = none }
      else if current == "superuser" && leb (count_administrators_by_role "superuser" db) 1
      then refuse 400 db
      else if enforce_role_limit new_role (count_administrators_by_role new_role db)
      then refuse 403 db
      else answer_with "updated"
          (delete_admin_tokens_for_user username (set_administrator_role username new_role db).1)
          "administrator_role_changed" username (current ++ " -> " ++ new_role ++ " by " ++ acting)

  unfoldable pub change_role_of : Option Admin → String → String → String → Accounts → Outcome
  unfolding change_role
  change_role_of none username new_role acting db = refuse 404 db
  change_role_of (some admin) username new_role acting db =
      change_role username (effective_role admin.role) new_role acting db

  unfoldable pub set_administrator_role_route : String → String → String → Accounts → Outcome
  unfolding change_role_of
  set_administrator_role_route username role acting db =
      change_role_of (get_administrator username db) username (lower (strip role)) acting db

unfoldable pub remove_target : Option Admin → String → String → Accounts → Outcome
unfolding remove_administrator
remove_target none username acting db = refuse 404 db
remove_target (some target) username acting db =
    if leb (count_administrators db) 1
    then refuse 400 db
    else if effective_role target.role == "superuser"
        && leb (count_administrators_by_role "superuser" db) 1
    then refuse 400 db
    else answer_with "removed" (remove_administrator username db) "administrator_removed" username
        ("removed by " ++ acting)

unfoldable pub remove_administrator_route : String → String → Accounts → Outcome
unfolding remove_target
remove_administrator_route username acting db =
    remove_target (get_administrator username db) username acting db

unfoldable pub set_administrator_sudo_connect_route : String → Bool → String → Accounts → Outcome
unfolding set_administrator_sudo_connect
set_administrator_sudo_connect_route username allowed acting db =
    if not (is_some (get_administrator username db))
    then refuse 404 db
    else answer_with (if allowed then "true" else "false")
        (set_administrator_sudo_connect username allowed db).1 "sudo_connect_set" username
        ((if allowed then "granted" else "revoked") ++ " by " ++ acting)

unfoldable pub reset_administrator_password_route :
    String → Policy → String → String → String → String → Accounts → Outcome
unfolding update_administrator_password delete_admin_tokens_for_user
    validate_password_against_policy
reset_administrator_password_route username policy new_password hash salt acting db =
    if not (is_some (get_administrator username db))
    then refuse 404 db
    else if new_password == ""
    then refuse 400 db
    else if is_some (validate_password_against_policy new_password policy)
    then refuse 400 db
    else answer_with "reset"
        (delete_admin_tokens_for_user username
          (update_administrator_password username hash salt true db))
        "password_reset" username ("reset by " ++ acting)
