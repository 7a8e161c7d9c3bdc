-- ===== src/Admins/Gate.antt =====
-- backend/auth.py: the gates on an administrator's session. A gate answers the status that it refuses with.
use sysible_controller.Prelude.{ℕ, String, ◌||◌, Option, none, some, nat_eq, ◌==◌, if◌then◌else◌}
use sysible_controller.Login.Session.{Admin, Accounts, resolve_admin_token}
use sysible_controller.Admins.Table.{count_administrators, get_administrator}

-- a request without a token: only before the first administrator
abbrev pub bootstrap : Accounts → Option ℕ × Accounts
bootstrap db = (if nat_eq (count_administrators db) 0 then none else some 401, db)

abbrev pub must_change : Option Admin → Option ℕ
must_change none = none
must_change (some acct) = if acct.must_change_password then some 403 else none

unfoldable pub judge_superuser : Option (String × String) × Accounts → Option ℕ × Accounts
judge_superuser (none, db) = (some 401, db)
judge_superuser (some admin, db) =
    (if admin.1 == "superuser" then must_change (get_administrator admin.0 db) else some 403, db)

unfoldable pub judge_viewer : Option (String × String) × Accounts → Option ℕ × Accounts
judge_viewer (none, db) = (some 401, db)
judge_viewer (some admin, db) =
    (if admin.1 == "superuser" || admin.1 == "auditor" then none else some 403, db)

abbrev pub name_of : Option (String × String) → String
name_of none = "unknown"
name_of (some admin) = if admin.0 == "" then "unknown" else admin.0

-- `digest` is `_token_at_rest`; no header and an empty one are the same
module _ (digest : String → String) where
  unfoldable pub require_superuser : String → ℕ → Accounts → Option ℕ × Accounts
  unfolding judge_superuser
  require_superuser token now db =
      if token == ""
      then bootstrap db
      else judge_superuser (resolve_admin_token digest token now db)

  unfoldable pub require_activity_viewer : String → ℕ → Accounts → Option ℕ × Accounts
  unfolding judge_viewer
  require_activity_viewer token now db =
      if token == "" then bootstrap db else judge_viewer (resolve_admin_token digest token now db)

  unfoldable pub acting_admin_name : String → ℕ → Accounts → String × Accounts
  acting_admin_name token now db = if token == "" then ("system", db) else (
    name_of (resolve_admin_token digest token now db).0,
    (resolve_admin_token digest token now db).1,
  )
