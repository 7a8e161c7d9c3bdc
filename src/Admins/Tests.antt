-- ===== src/Admins/Tests.antt =====
-- A console with a superuser and a sysadmin, and the theorems at it.
use Prim.Native.String.{◌++◌}
use sysible_controller.Prelude.{
  codes, ◌≤◌, ◌≡◌, refl, String, Bool, true, false, none, some, [], ◌∷◌, length, any, lookup,
  insert, erase, ◌==◌, arith,
}
use sysible_controller.Login.Session.{
  Admin, Session, Accounts, resolve_admin_token, resolve_row, is_stale_session,
  delete_admin_tokens_for_user,
}
use sysible_controller.Admins.Table.{
  count_administrators_by_role, add_administrator, remove_administrator, update_row,
  update_administrator, rename_row, set_administrator_role, set_administrator_sudo_connect,
  update_administrator_username, update_administrator_password,
}
use sysible_controller.Admins.Counts.{IsTable}
use sysible_controller.Admins.Gate.{
  require_superuser, acting_admin_name, judge_superuser, require_activity_viewer, judge_viewer,
}
use sysible_controller.Admins.Policy.{
  Policy, validate_password_against_policy, validate_admin_name, admin_name_re,
}
use sysible_controller.Admins.Routes.{
  Added, Answer, error, done, add_as, add_administrator_route, remove_target,
  remove_administrator_route, change_role, change_role_of, set_administrator_role_route,
  set_administrator_sudo_connect_route, reset_administrator_password_route, enforce_role_limit,
}
use sysible_controller.Admins.Sso.{ensure_sso_account, sso_account, sso_role_for}
use sysible_controller.Admins.Serve.{Call, Request, route, serve, serve_all}
use sysible_controller.Admins.Change.{Change}
use sysible_controller.Admins.Refines.{serve-Change}
use sysible_controller.Admins.Kept.{superuser_stays}
use sysible_controller.Admins.Allowed.{IsAllowed, serve-done-IsAllowed}
use sysible_controller.Admins.Revokes.{serve-resolve}
use sysible_controller.Admins.Names.{is_meta, has_dash, validate_admin_name-plain}

abbrev hashed : String → String
hashed s = "#" ++ s

abbrev as_is : String → String
as_is s = s

abbrev admin : String → Bool → Admin
admin role must_change_password = record {
  password_hash = "h";
  password_salt = "s";
  must_change_password = must_change_password;
  created = 1;
  created_by = "system";
  last_login = none;
  role = role;
  sudo_connect = false;
}

abbrev session : String → String → Session
session username role = record { username = username; role = role; expiry = 9000 }

-- eve still has the password that she was given
abbrev console : Accounts
console = record {
  admin_tokens =
      ("#a", session "ann" "superuser")
      ∷ ("#b", session "bob" "sysadmin")
      ∷ ("#e", session "eve" "superuser")
      ∷ [];
  administrators =
      ("ann", admin "superuser" false)
      ∷ ("bob", admin "sysadmin" false)
      ∷ ("eve", admin "superuser" true)
      ∷ [];
}

abbrev ask : String → Call → Request
ask token call = record { has_key = true; token = token; now = 5000; call = call }

abbrev served : Request → Accounts → Answer
served r db = (serve hashed as_is as_is r db).answer

abbrev policy : Policy
policy = record { minlen = 4; lcredit = true; ucredit = false; dcredit = true; ocredit = false }

abbrev cid : Added
cid = record {
  username = "cid";
  password = "abc1";
  password_salt = "s";
  password_hash = "h";
  role = "superuser";
}

abbrev demote_eve : Request
demote_eve = ask "a" (Call.set_role "eve" "auditor")

unfoldable opened : Request → Answer × Accounts
unfolding serve route require_superuser judge_superuser acting_admin_name resolve_admin_token
    resolve_row is_stale_session delete_admin_tokens_for_user add_administrator remove_administrator
    update_row update_administrator set_administrator_role set_administrator_sudo_connect add_as
    add_administrator_route remove_target remove_administrator_route change_role change_role_of
    set_administrator_role_route set_administrator_sudo_connect_route
    reset_administrator_password_route update_administrator_password enforce_role_limit lookup
    insert erase validate_password_against_policy
opened r = let o = serve hashed as_is as_is r console in (o.answer, o.db)

tests :
    ((opened (ask "a" (Call.remove "eve"))).0 ≡ done "removed")
    × ((opened (ask "b" (Call.remove "eve"))).0 ≡ error 403)
    × ((opened (ask "e" (Call.remove "bob"))).0 ≡ error 403)
    × ((opened (ask "" (Call.remove "bob"))).0 ≡ error 401)
    × ((opened (ask "a" (Call.remove "zed"))).0 ≡ error 404)
    × ((opened (ask "a" (Call.add policy cid))).0 ≡ done "added")
    × ((opened (ask "a" (Call.add policy (record cid { role = "sysadmin"; password = "abcd" })))).0
        ≡ error 400)
    × ((opened (ask "a" (Call.add policy (record cid { role = "sysadmin"; username = "bob" })))).0
        ≡ error 409)
    × ((opened (ask "a" (Call.set_sudo_connect "bob" true))).0 ≡ done "true")
    × ((opened demote_eve).0 ≡ done "updated")
    × ((opened (ask "a" (Call.reset_password "bob" policy "abc2" "n" "t"))).0 ≡ done "reset")
    × (lookup "#b"
          (opened (ask "a" (Call.reset_password "bob" policy "abc2" "n" "t"))).1.admin_tokens
        ≡ none)
    × ((opened (ask "a" (Call.reset_password "bob" policy "abcd" "n" "t"))).0 ≡ error 400)
    × ((opened (ask "a" (Call.reset_password "zed" policy "abc2" "n" "t"))).0 ≡ error 404)
unfolding opened lookup
tests = (refl, refl, refl, refl, refl, refl, refl, refl, refl, refl, refl, refl, refl, refl)

-- a rename, a viewer's gate, single sign-on, and names
more_tests :
    (count_administrators_by_role "superuser" (update_administrator_username "ann" "amy" console).1
      ≡ 2)
    × ((require_activity_viewer hashed "b" 5000 console).0 ≡ some 403)
    × (sso_role_for as_is as_is "operator" ≡ "sysadmin")
    × (validate_admin_name as_is "-rf" ≡ none)
    × (ensure_sso_account as_is 1 "a;b" "s" "h" "auditor" "gateway" console ≡ none)
unfolding require_activity_viewer judge_viewer resolve_admin_token resolve_row is_stale_session
    lookup sso_role_for validate_admin_name admin_name_re update_administrator_username rename_row
    ensure_sso_account sso_account
more_tests = (refl, refl, refl, refl, refl)

serve-Change_example :
    Change console.administrators (serve hashed as_is as_is demote_eve console).db.administrators
serve-Change_example = serve-Change hashed as_is as_is demote_eve console

console-IsTable : IsTable console.administrators
unfolding lookup
console-IsTable = (refl, (refl, (refl, tt)))

superuser_stays_example :
    let db = serve_all hashed as_is as_is (demote_eve ∷ ask "a" (Call.remove "ann") ∷ []) console in
    IsTable db.administrators × (1 ≤ count_administrators_by_role "superuser" db)
superuser_stays_example =
    superuser_stays hashed as_is as_is (demote_eve ∷ ask "a" (Call.remove "ann") ∷ []) console
      console-IsTable (omega arith)

serve-done-IsAllowed_example : (true ≡ true) × IsAllowed hashed demote_eve console
unfolding opened
serve-done-IsAllowed_example =
    serve-done-IsAllowed hashed as_is as_is demote_eve console "updated" refl

serve-resolve_example : ("ann" == "eve") ≡ false
unfolding opened
serve-resolve_example =
    serve-resolve hashed as_is as_is demote_eve console "eve" "updated" "a" 6000
      ("ann", "superuser") refl refl refl refl

validate_admin_name-plain_example :
    (any is_meta (codes "ann@web") ≡ false)
    × (has_dash (codes "ann@web") ≡ false)
    × (length (codes "ann@web") ≤ 64)
unfolding validate_admin_name admin_name_re
validate_admin_name-plain_example = validate_admin_name-plain as_is "ann@web" "ann@web" refl
