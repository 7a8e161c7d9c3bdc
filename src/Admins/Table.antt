-- ===== src/Admins/Table.antt =====
-- The table `administrators`. Passwords come hashed; the clock of `created` and `last_login` is an argument.
use sysible_controller.Prelude.{
  ℕ, String, Bool, true, false, not, ◌&&◌, Option, none, some, [], ◌∷◌, length, select, count_where,
  Dict, lookup, insert, erase, contains_key, ◌==◌, if◌then◌else◌,
}
use sysible_controller.Login.Session.{Admin, Accounts}

-- `UPDATE administrators SET ... WHERE username=?`
unfoldable pub update_row : String → (Admin → Admin) → Dict Admin → Dict Admin
update_row username f [] = []
update_row username f ((k, v) ∷ rows) =
    let rest = update_row username f rows in
    if username == k then (k, f v) ∷ rest else (k, v) ∷ rest

-- `UPDATE administrators SET username=? WHERE username=?`
unfoldable pub rename_row : String → String → Dict Admin → Dict Admin
rename_row old new [] = []
rename_row old new ((k, v) ∷ rows) =
    let rest = rename_row old new rows in if old == k then (new, v) ∷ rest else (k, v) ∷ rest

-- the write, and whether a row was there
unfoldable pub update_administrator : String → (Admin → Admin) → Accounts → Bool × Accounts
unfolding update_row
update_administrator username f db = (
  contains_key username db.administrators,
  record db { administrators = update_row username f db.administrators },
)

abbrev pub count_administrators : Accounts → ℕ
count_administrators db = length db.administrators

abbrev pub holds : String → String × Admin → Bool
holds role row = row.1.role == role

abbrev pub count_administrators_by_role : String → Accounts → ℕ
count_administrators_by_role role db = count_where (holds role) db.administrators

abbrev pub get_administrator : String → Accounts → Option Admin
get_administrator username db = lookup username db.administrators

unfoldable pub add_administrator :
    ℕ → String → String → String → Bool → String → String → Accounts → Bool × Accounts
add_administrator now username password_hash password_salt must_change_password created_by role db =
    if contains_key username db.administrators then (false, db) else (
      true,
      record db {
        administrators =
            insert username
              (record {
                password_hash = password_hash;
                password_salt = password_salt;
                must_change_password = must_change_password;
                created = now;
                created_by = created_by;
                last_login = none;
                role = role;
                sudo_connect = false;
              })
              db.administrators;
      },
    )

unfoldable pub remove_administrator : String → Accounts → Accounts
remove_administrator username db = record {
  admin_tokens = select (λ row. not (row.1.username == username)) db.admin_tokens;
  administrators = erase username db.administrators;
}

unfoldable pub set_administrator_role : String → String → Accounts → Bool × Accounts
unfolding update_administrator
set_administrator_role username role = update_administrator username (λ a. record a { role = role })

unfoldable pub set_administrator_sudo_connect : String → Bool → Accounts → Bool × Accounts
unfolding update_administrator
set_administrator_sudo_connect username allowed =
    update_administrator username (λ a. record a { sudo_connect = allowed })

unfoldable pub adopt_administrator_for_sso :
    String → String → String → String → Accounts → Bool × Accounts
unfolding update_administrator
adopt_administrator_for_sso username role password_hash password_salt =
    update_administrator username (λ a. record a {
      created_by = "sso";
      role = role;
      password_hash = password_hash;
      password_salt = password_salt;
      must_change_password = false;
      sudo_connect = false;
    })

unfoldable pub update_administrator_username : String → String → Accounts → Bool × Accounts
unfolding rename_row
update_administrator_username old new db =
    if old == new
    then (true, db)
    else if contains_key old db.administrators && contains_key new db.administrators
    then (false, db)
    else (true, record db { administrators = rename_row old new db.administrators })

unfoldable pub update_administrator_password : String → String → String → Bool → Accounts → Accounts
unfolding update_row
update_administrator_password username password_hash password_salt must_change_password db =
    record db {
      administrators =
          update_row username
            (λ a. record a {
              password_hash = password_hash;
              password_salt = password_salt;
              must_change_password = must_change_password;
            })
            db.administrators;
    }

unfoldable pub record_administrator_login : ℕ → String → Accounts → Accounts
unfolding update_row
record_administrator_login now username db = record db {
  administrators = update_row username (λ a. record a { last_login = some now }) db.administrators;
}
