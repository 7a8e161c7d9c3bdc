-- ===== src/Login/Session.antt =====
-- `create_admin_token`, `resolve_admin_token`, `delete_admin_token`, `delete_admin_tokens_for_user`.
use sysible_controller.Prelude.{
  ℕ, String, Bool, true, not, ◌||◌, Option, none, some, select, Dict, lookup, insert, erase, ltb,
  ◌==◌, if◌then◌else◌,
}

pub record Session : Type 0 where
  pub username : String
  pub role : String
  pub expiry : ℕ

-- a row of `administrators`, less its username, which is the key; no text stands for NULL
pub record Admin : Type 0 where
  pub password_hash : String
  pub password_salt : String
  pub must_change_password : Bool
  pub created : ℕ
  pub created_by : String
  pub last_login : Option ℕ
  pub role : String
  pub sudo_connect : Bool

-- the two tables
pub record Accounts : Type 0 where
  pub admin_tokens : Dict Session
  pub administrators : Dict Admin

-- `role or "superuser"`
abbrev pub effective_role : String → String
effective_role role = if role == "" then "superuser" else role

abbrev pub is_other_role : Option Admin → String → Bool
is_other_role none role = true
is_other_role (some live) role = not (effective_role live.role == effective_role role)

unfoldable pub is_stale_session : ℕ → Dict Admin → Session → Bool
is_stale_session now administrators session =
    ltb session.expiry now || is_other_role (lookup session.username administrators) session.role

-- from the row on
unfoldable pub resolve_row :
    ℕ → String → Option Session → Accounts → Option (String × String) × Accounts
unfolding is_stale_session
resolve_row now key none db = (none, db)
resolve_row now key (some session) db =
    if is_stale_session now db.administrators session
    then (none, record db { admin_tokens = erase key db.admin_tokens })
    else (some (session.username, session.role), db)

-- `digest` is `_token_at_rest`
module _ (digest : String → String) where
  unfoldable pub create_admin_token : String → String → String → ℕ → Accounts → Accounts
  create_admin_token token username role expiry db = record db {
    admin_tokens =
        insert (digest token) (record { username = username; role = role; expiry = expiry })
          db.admin_tokens;
  }

  unfoldable pub resolve_admin_token : String → ℕ → Accounts → Option (String × String) × Accounts
  unfolding resolve_row
  resolve_admin_token token now db =
      if token == ""
      then (none, db)
      else resolve_row now (digest token) (lookup (digest token) db.admin_tokens) db

  unfoldable pub delete_admin_token : String → Accounts → Accounts
  delete_admin_token token db =
      if token == "" then db else record db { admin_tokens = erase (digest token) db.admin_tokens }

unfoldable pub delete_admin_tokens_for_user : String → Accounts → Accounts
delete_admin_tokens_for_user username db = if username == "" then db else record db {
  admin_tokens = select (λ row. not (row.1.username == username)) db.admin_tokens;
}
