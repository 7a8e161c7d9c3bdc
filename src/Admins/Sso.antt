-- ===== src/Admins/Sso.antt =====
-- backend/app.py, `ensure_sso_account` and `sso_role_for`: accounts that SLOP signs in.
use Prim.Native.String.{◌++◌}
use sysible_controller.Prelude.{
  ℕ, String, false, not, Option, none, some, [], ◌∷◌, Dict, lookup, ◌==◌, if◌then◌else◌,
}
use sysible_controller.Login.Session.{Admin, Accounts, effective_role}
use sysible_controller.Admins.Table.{
  get_administrator, add_administrator, set_administrator_role, adopt_administrator_for_sso,
}
use sysible_controller.Admins.Policy.{validate_admin_name}
use sysible_controller.Admins.Routes.{Audited, role_or}

abbrev pub sso_role_map : Dict String
sso_role_map = ("superuser", "superuser") ∷ ("operator", "sysadmin") ∷ ("auditor", "auditor") ∷ []

abbrev pub or_auditor : Option String → String
or_auditor none = "auditor"
or_auditor (some role) = role

unfoldable pub sso_role_for : (String → String) → (String → String) → String → String
sso_role_for strip lower asserted = or_auditor (lookup (lower (strip asserted)) sso_role_map)

module _ (strip : String → String) where
  abbrev pub provision :
      ℕ
      → String
      → String
      → String
      → String
      → Option String
      → Accounts
      → Option (Accounts × Option Audited)
  provision now password_salt password_hash role origin none db = none
  provision now password_salt password_hash role origin (some username) db = some (
    (add_administrator now username password_hash password_salt false "sso" role db).1,
    some (record {
      event = "sso_account_provisioned";
      username = username;
      detail = "role=" ++ role ++ " (via SLOP SSO, " ++ origin ++ ")";
    }),
  )

  abbrev pub adopt_local :
      String
      → String
      → String
      → String
      → String
      → Admin
      → Option String
      → Accounts
      → Option (Accounts × Option Audited)
  adopt_local username password_salt password_hash role origin acct none db = none
  adopt_local username password_salt password_hash role origin acct (some _) db = some (
    (adopt_administrator_for_sso username role password_hash password_salt db).1,
    some (record {
      event = "sso_account_adopted";
      username = username;
      detail =
          "local account (created_by="
          ++ role_or "unknown" acct.created_by
          ++ ", role="
          ++ effective_role acct.role
          ++ ") taken over by SLOP SSO at role="
          ++ role
          ++ "; local password disabled and sudo_connect revoked ("
          ++ origin
          ++ ")";
    }),
  )

  unfoldable pub sso_account :
      Option Admin
      → ℕ
      → String
      → String
      → String
      → String
      → String
      → Accounts
      → Option (Accounts × Option Audited)
  unfolding add_administrator adopt_administrator_for_sso set_administrator_role validate_admin_name
  sso_account none now username password_salt password_hash role origin db =
      provision now password_salt password_hash role origin (validate_admin_name strip username) db
  sso_account (some acct) now username password_salt password_hash role origin db =
      if not (acct.created_by == "sso")
      then adopt_local username password_salt password_hash role origin acct
          (validate_admin_name strip username) db
      else if effective_role acct.role == role
      then some (db, none)
      else some (
        (set_administrator_role username role db).1,
        some (record {
          event = "sso_role_synced";
          username = username;
          detail = "role -> " ++ role ++ " (via SLOP SSO, " ++ origin ++ ")";
        }),
      )

  -- `none` is the ValueError of `_validate_admin_name`
  unfoldable pub ensure_sso_account :
      ℕ → String → String → String → String → String → Accounts → Option (Accounts × Option Audited)
  unfolding sso_account
  ensure_sso_account now username password_salt password_hash role origin db =
      sso_account (get_administrator username db) now username password_salt password_hash role
        origin db
