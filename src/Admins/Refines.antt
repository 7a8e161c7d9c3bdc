-- ===== src/Admins/Refines.antt =====
-- Every request changes the table `administrators` by a guarded change.
use sysible_controller.Prelude.{
  ℕ, ◌≡◌, refl, ◌∙◌, String, Bool, true, false, not, ◌||◌, Option, none, some, lookup, leb, is_some,
  ◌==◌, Bool-cases, inl, inr, subst, if◌then◌else◌, Option-cases,
}
use sysible_controller.Login.Session.{
  Admin, Accounts, effective_role, resolve_admin_token, resolve_row, is_stale_session,
  delete_admin_tokens_for_user, Session,
}
use sysible_controller.Admins.Table.{
  count_administrators, count_administrators_by_role, add_administrator, remove_administrator,
  update_administrator, update_administrator_password, set_administrator_role,
  set_administrator_sudo_connect,
}
use sysible_controller.Admins.Gate.{require_superuser, acting_admin_name, judge_superuser}
use sysible_controller.Admins.Policy.{Policy, validate_password_against_policy}
use sysible_controller.Admins.Routes.{
  Added, Outcome, refuse, add_as, add_administrator_route, remove_target,
  remove_administrator_route, change_role, change_role_of, set_administrator_role_route,
  set_administrator_sudo_connect_route, reset_administrator_password_route, enforce_role_limit,
  is_role, role_or,
}
use sysible_controller.Admins.Serve.{Call, Request, route, act, enter, serve}
use sysible_controller.Admins.Change.{Change, is_last}

row_administrators :
    (now : ℕ) (key : String) (o : Option Session) (db : Accounts)
    → (resolve_row now key o db).1.administrators ≡ db.administrators
unfolding resolve_row
row_administrators now key none db = refl
row_administrators now key (some session) db =
    elim (Bool-cases (is_stale_session now db.administrators session)) [
      | inl stale ↦ rw stale refl
      | inr live ↦ rw live refl
    ]

module _ (digest : String → String) where
  pub resolve-administrators :
      (token : String) (now : ℕ) (db : Accounts)
      → (resolve_admin_token digest token now db).1.administrators ≡ db.administrators
  unfolding resolve_admin_token
  resolve-administrators token now db = elim (Bool-cases (token == "")) [
    | inl e ↦ rw e refl
    | inr e ↦
        rw e (row_administrators now (digest token) (lookup (digest token) db.admin_tokens) db)
  ]

  judge-administrators : (r : Option (String × String) × Accounts) → (judge_superuser r).1 ≡ r.1
  unfolding judge_superuser
  judge-administrators (none, db) = refl
  judge-administrators (some admin, db) = refl

  pub require-administrators :
      (token : String) (now : ℕ) (db : Accounts)
      → (require_superuser digest token now db).1.administrators ≡ db.administrators
  unfolding require_superuser
  require-administrators token now db = elim (Bool-cases (token == "")) [
    | inl e ↦ rw e refl
    | inr e ↦
        rw (e, judge-administrators (resolve_admin_token digest token now db))
          (resolve-administrators token now db)
  ]

  pub acting-administrators :
      (token : String) (now : ℕ) (db : Accounts)
      → (acting_admin_name digest token now db).1.administrators ≡ db.administrators
  unfolding acting_admin_name
  acting-administrators token now db = elim (Bool-cases (token == "")) [
    | inl e ↦ rw e refl
    | inr e ↦ rw e (resolve-administrators token now db)
  ]

delete-administrators :
    (username : String) (db : Accounts)
    → (delete_admin_tokens_for_user username db).administrators ≡ db.administrators
unfolding delete_admin_tokens_for_user
delete-administrators username db = elim (Bool-cases (username == "")) [
  | inl e ↦ rw e refl
  | inr e ↦ rw e refl
]

-- the table after an outcome
abbrev IsChanged : Accounts → Outcome → Type 0
IsChanged db o = Change db.administrators o.db.administrators

unless :
    (b : Bool) (db : Accounts) (n : ℕ) (o : Outcome)
    → (b ≡ false → IsChanged db o)
    → IsChanged db (if b then refuse n db else o)
unless true db n o h = Change.same
unless false db n o h = h refl

unless_else :
    (b : Bool) (db : Accounts) (x o : Outcome)
    → IsChanged db x
    → (b ≡ false → IsChanged db o)
    → IsChanged db (if b then x else o)
unless_else true db x o here h = here
unless_else false db x o here h = h refl

remove-IsChanged :
    (o : Option Admin) (username acting : String) (db : Accounts)
    → lookup username db.administrators ≡ o
    → IsChanged db (remove_target o username acting db)
unfolding remove_target remove_administrator
remove-IsChanged none username acting db at = Change.same
remove-IsChanged (some a) username acting db at =
    unless (leb (count_administrators db) 1) db 400 _ (λ _.
      unless (is_last a db.administrators) db 400 _ (λ guard. Change.removed username a at guard))

sudo-IsChanged :
    (o : Option Admin) (username acting : String) (allowed : Bool) (db : Accounts)
    → lookup username db.administrators ≡ o
    → IsChanged db (set_administrator_sudo_connect_route username allowed acting db)
unfolding set_administrator_sudo_connect_route set_administrator_sudo_connect update_administrator
sudo-IsChanged none username acting allowed db at = rw at Change.same
sudo-IsChanged (some a) username acting allowed db at =
    rw at (Change.rewritten username _ a at (λ b. refl))

role-IsChanged :
    (strip lower : String → String) (o : Option Admin) (username new acting : String)
    (db : Accounts)
    → lookup username db.administrators ≡ o
    → IsChanged db (change_role_of strip lower o username new acting db)
unfolding change_role_of change_role set_administrator_role update_administrator
role-IsChanged strip lower none username new acting db at = Change.same
role-IsChanged strip lower (some a) username new acting db at =
    unless (not (is_role new)) db 400 _ (λ _.
      unless_else (new == effective_role a.role) db _ _ Change.same (λ other.
        unless (is_last a db.administrators) db 400 _ (λ guard.
          unless (enforce_role_limit new (count_administrators_by_role new db)) db 403 _ (λ _.
            rw (delete-administrators username)
              (Change.moved username _ a new at (λ b. refl) other guard)))))

add-IsChanged :
    (strip lower : String → String) (now : ℕ) (policy : Policy) (acting role : String)
    (body : Added) (db : Accounts)
    → IsChanged db (add_as strip lower now policy acting role body db)
unfolding add_as add_administrator
add-IsChanged strip lower now policy acting role body db =
    unless (not (is_role role)) db 400 _ (λ _.
      unless (enforce_role_limit role (count_administrators_by_role role db)) db 403 _ (λ _.
        unless (is_some (validate_password_against_policy body.password policy)) db 400 _ (λ _.
          elim (Option-cases (lookup (strip body.username) db.administrators)) [
            | inl new ↦ rw new (Change.added (strip body.username) _ new)
            | inr (a, old) ↦ rw old Change.same
          ])))

reset-IsChanged :
    (o : Option Admin) (username : String) (policy : Policy) (new hash salt acting : String)
    (db : Accounts)
    → lookup username db.administrators ≡ o
    → IsChanged db (reset_administrator_password_route username policy new hash salt acting db)
unfolding reset_administrator_password_route update_administrator_password
reset-IsChanged none username policy new hash salt acting db at = rw at Change.same
reset-IsChanged (some a) username policy new hash salt acting db at = rw at (
    unless (new == "") db 400 _ (λ _.
      unless (is_some (validate_password_against_policy new policy)) db 400 _
        (λ _. rw (delete-administrators username) (Change.rewritten username _ a at (λ b. refl)))))

module _ (digest strip lower : String → String) where
  route-IsChanged :
      (now : ℕ) (call : Call) (acting : String) (db : Accounts)
      → IsChanged db (route digest strip lower now call acting db)
  unfolding route add_administrator_route remove_administrator_route set_administrator_role_route
  route-IsChanged now (Call.add policy body) acting db =
      unless (strip body.username == "" || body.password == "") db 400 _ (λ _.
        add-IsChanged strip lower now policy acting (lower (strip (role_or "sysadmin" body.role)))
          body db)
  route-IsChanged now (Call.remove username) acting db =
      remove-IsChanged (lookup username db.administrators) username acting db refl
  route-IsChanged now (Call.set_role username role) acting db =
      role-IsChanged strip lower (lookup username db.administrators) username _ acting db refl
  route-IsChanged now (Call.set_sudo_connect username allowed) acting db =
      sudo-IsChanged (lookup username db.administrators) username acting allowed db refl
  route-IsChanged now (Call.reset_password username policy new hash salt) acting db =
      reset-IsChanged (lookup username db.administrators) username policy new hash salt acting db
        refl

  act-IsChanged :
      (now : ℕ) (call : Call) (s : String × Accounts) (db : Accounts)
      → s.1.administrators ≡ db.administrators
      → IsChanged db (act digest strip lower now call s)
  act-IsChanged now call (acting, db') db same =
      subst (λ rows. Change rows (route digest strip lower now call acting db').db.administrators)
        same (route-IsChanged now call acting db')

  enter-IsChanged :
      (token : String) (now : ℕ) (call : Call) (g : Option ℕ × Accounts) (db : Accounts)
      → g.1.administrators ≡ db.administrators
      → IsChanged db (enter digest strip lower token now call g)
  enter-IsChanged token now call (some status, db') db same = rw same Change.same
  enter-IsChanged token now call (none, db') db same =
      act-IsChanged now call (acting_admin_name digest token now db') db
        (acting-administrators digest token now db' ∙ same)

  -- A request on one of the five routes of `/admin/administrators` that change accounts, whatever it asks and
  -- whoever sends it, in one step changes the table `administrators` by a guarded change: nothing, an account under a
  -- new name, the removal of an account that is not the last superuser, a write that keeps the role, or a
  -- write of another role to an account that is not the last superuser.
  pub serve-Change :
      (r : Request) (db : Accounts)
      → Change db.administrators (serve digest strip lower r db).db.administrators
  unfolding serve
  serve-Change r db =
      let passed =
        enter-IsChanged r.token r.now r.call (require_superuser digest r.token r.now db) db
          (require-administrators digest r.token r.now db) in
      elim (Bool-cases r.has_key) [ inl e ↦ rw e passed | inr e ↦ rw e Change.same ]
