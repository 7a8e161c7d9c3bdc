-- ===== src/Admins/Revokes.antt =====
-- The sessions that a removal, a change of a role and a reset of a password end.
use sysible_controller.Prelude.{
  ℕ, ◌≡◌, refl, ◌∙◌, String, Bool, true, false, not, Option, none, some, lookup, lookup-erase, leb,
  is_some, ◌==◌, Bool-cases, inl, inr, subst, if◌then◌else◌,
}
use sysible_controller.Login.Session.{Admin, Accounts, effective_role, resolve_admin_token}
use sysible_controller.Login.Revocation.{has_role, resolve-has_role, delete-resolve}
use sysible_controller.Admins.Table.{
  count_administrators, count_administrators_by_role, remove_administrator, set_administrator_role,
  update_administrator_password, get_administrator,
}
use sysible_controller.Admins.Policy.{Policy, validate_password_against_policy}
use sysible_controller.Admins.Gate.{require_superuser, acting_admin_name}
use sysible_controller.Admins.Routes.{
  Outcome, done, refuse, remove_target, remove_administrator_route, change_role, change_role_of,
  set_administrator_role_route, reset_administrator_password_route, enforce_role_limit, is_role,
}
use sysible_controller.Admins.Serve.{Call, Request, route, act, enter, serve}
use sysible_controller.Admins.Change.{is_last}

-- whose account the call removes, or gives another role or password, and the answer that says so
abbrev pub target : Call → Option (String × String)
target (Call.remove username) = some (username, "removed")
target (Call.set_role username role) = some (username, "updated")
target (Call.reset_password username policy new hash salt) = some (username, "reset")
target _ = none

module _ (digest : String → String) where
  -- no token resolves to this user
  abbrev IsSignedOut : String → Accounts → Type 0
  IsSignedOut username db =
      (token : String) (now : ℕ) (who : String × String)
      → (resolve_admin_token digest token now db).0 ≡ some who
      → (who.0 == username) ≡ false

  removed_out :
      (username : String) (db : Accounts) → IsSignedOut username (remove_administrator username db)
  unfolding remove_administrator
  removed_out username db token now who e =
      let live = resolve-has_role digest token now (remove_administrator username db) who e in
      elim (Bool-cases (who.0 == username)) [
        | inr other ↦ other
        | inl same ↦
            let gone : lookup who.0 (remove_administrator username db).administrators ≡ none =
              rw (lookup-erase, same) refl in
            let no_role : has_role who none ≡ true = subst (λ o. has_role who o ≡ true) gone live in
            absurd (cc no_role)
      ]

  -- the branch that answers
  answered :
      (P : Accounts → Type 0) (status : String) (b : Bool) (n : ℕ) (db : Accounts) (o : Outcome)
      → (o.answer ≡ done status → P o.db)
      → (if b then refuse n db else o).answer ≡ done status
      → P (if b then refuse n db else o).db
  answered P status true n db o h e = absurd (cc e)
  answered P status false n db o h e = h e

  module _ (strip lower : String → String) where
    remove_out :
        (o : Option Admin) (username acting : String) (db : Accounts)
        → (remove_target o username acting db).answer ≡ done "removed"
        → IsSignedOut username (remove_target o username acting db).db
    unfolding remove_target
    remove_out none username acting db = λ e. absurd (cc e)
    remove_out (some a) username acting db =
        answered (IsSignedOut username) "removed" (leb (count_administrators db) 1) 400 db _ (
          answered (IsSignedOut username) "removed" (is_last a db.administrators) 400 db _
            (λ _. removed_out username db))

    not_updated : (P : Accounts → Type 0) (db : Accounts) → done "unchanged" ≡ done "updated" → P db
    not_updated P db e = absurd (cc e)

    role_out :
        (o : Option Admin) (username new acting : String) (db : Accounts)
        → (username == "") ≡ false
        → (change_role_of strip lower o username new acting db).answer ≡ done "updated"
        → IsSignedOut username (change_role_of strip lower o username new acting db).db
    unfolding change_role_of change_role
    role_out none username new acting db named = λ e. absurd (cc e)
    role_out (some a) username new acting db named =
        answered (IsSignedOut username) "updated" (not (is_role new)) 400 db _
          (elim (Bool-cases (new == effective_role a.role)) [
            | inl same ↦ rw same (not_updated (IsSignedOut username) db)
            | inr other ↦ rw other (
                answered (IsSignedOut username) "updated" (is_last a db.administrators) 400 db _ (
                  answered (IsSignedOut username) "updated"
                    (enforce_role_limit new (count_administrators_by_role new db)) 403 db _
                    (λ _ token now who e.
                      delete-resolve digest token username now
                        (set_administrator_role username new db).1 who named e)))
          ])

    reset_out :
        (username : String) (policy : Policy) (new hash salt acting : String) (db : Accounts)
        → (username == "") ≡ false
        → let o = reset_administrator_password_route username policy new hash salt acting db in
          o.answer ≡ done "reset" → IsSignedOut username o.db
    unfolding reset_administrator_password_route
    reset_out username policy new hash salt acting db named =
        answered (IsSignedOut username) "reset" (not (is_some (get_administrator username db))) 404
          db _
          (answered (IsSignedOut username) "reset" (new == "") 400 db _ (
            answered (IsSignedOut username) "reset"
              (is_some (validate_password_against_policy new policy)) 400 db _
              (λ _ token now who e.
                delete-resolve digest token username now
                  (update_administrator_password username hash salt true db) who named e)))

    route_out :
        (now : ℕ) (call : Call) (username status acting : String) (db : Accounts)
        → (username == "") ≡ false
        → target call ≡ some (username, status)
        → (route digest strip lower now call acting db).answer ≡ done status
        → IsSignedOut username (route digest strip lower now call acting db).db
    unfolding route remove_administrator_route set_administrator_role_route
    route_out now (Call.add policy body) username status acting db named at e = absurd (cc at)
    route_out now (Call.set_sudo_connect u allowed) username status acting db named at e =
        absurd (cc at)
    route_out now (Call.remove u) username status acting db named at e =
        let who : u ≡ username = cc at in
        let says : status ≡ "removed" = cc at in
        subst (λ n. IsSignedOut n (remove_target (lookup u db.administrators) u acting db).db) who
          (remove_out (lookup u db.administrators) u acting db (e ∙ cc says))
    route_out now (Call.set_role u role) username status acting db named at e =
        let who : u ≡ username = cc at in
        let says : status ≡ "updated" = cc at in
        let named_u : (u == "") ≡ false = rw who named in
        subst
          (λ n.
            IsSignedOut n
              (change_role_of strip lower (lookup u db.administrators) u (lower (strip role)) acting
                db).db)
          who
          (role_out (lookup u db.administrators) u (lower (strip role)) acting db named_u
            (e ∙ cc says))
    route_out now (Call.reset_password u policy new hash salt) username status acting db named at
          e =
        let who : u ≡ username = cc at in
        let says : status ≡ "reset" = cc at in
        let named_u : (u == "") ≡ false = rw who named in
        subst
          (λ n.
            IsSignedOut n (reset_administrator_password_route u policy new hash salt acting db).db)
          who (reset_out u policy new hash salt acting db named_u (e ∙ cc says))

    act_out :
        (now : ℕ) (call : Call) (s : String × Accounts) (username status : String)
        → (username == "") ≡ false
        → target call ≡ some (username, status)
        → (act digest strip lower now call s).answer ≡ done status
        → IsSignedOut username (act digest strip lower now call s).db
    act_out now call (acting, db) username status named at e =
        route_out now call username status acting db named at e

    enter_out :
        (token : String) (now : ℕ) (call : Call) (g : Option ℕ × Accounts)
        (username status : String)
        → (username == "") ≡ false
        → target call ≡ some (username, status)
        → (enter digest strip lower token now call g).answer ≡ done status
        → IsSignedOut username (enter digest strip lower token now call g).db
    enter_out token now call (some code, db) username status named at e = absurd (cc e)
    enter_out token now call (none, db) username status named at e =
        act_out now call (acting_admin_name digest token now db) username status named at e

    signed_out :
        (r : Request) (db : Accounts) (username status : String)
        → (username == "") ≡ false
        → target r.call ≡ some (username, status)
        → (serve digest strip lower r db).answer ≡ done status
        → IsSignedOut username (serve digest strip lower r db).db
    unfolding serve
    signed_out r db username status named at = elim (Bool-cases r.has_key) [
      | inl e ↦ rw e (
          enter_out r.token r.now r.call (require_superuser digest r.token r.now db) username status
            named at)
      | inr e ↦ rw e λ bad. absurd (cc bad)
    ]

    -- A request that answers that it removed an account, gave it another role, or reset its password, ends all
    -- sessions of that user: afterwards no token resolves to the user, at any time. The username is not the empty text.
    pub serve-resolve :
        (r : Request) (db : Accounts) (username status token : String) (later : ℕ)
        (who : String × String)
        → (username == "") ≡ false
        → target r.call ≡ some (username, status)
        → (serve digest strip lower r db).answer ≡ done status
        → (resolve_admin_token digest token later (serve digest strip lower r db).db).0 ≡ some who
        → (who.0 == username) ≡ false
    serve-resolve r db username status token later who named at ok =
        signed_out r db username status named at ok token later who
