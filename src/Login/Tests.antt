-- ===== src/Login/Tests.antt =====
-- A guessed password and an administrator who is demoted, and the theorems at them.
use sysible_controller.Prelude.{
  ℕ, ◌≡◌, refl, true, false, Option, none, some, [], ◌∷◌, List, String, lookup, insert, erase, ◌==◌,
  arith,
}
use Prim.Native.String.{◌++◌}
use sysible_controller.Login.Throttle.{login_throttle_record_failure, login_throttle_locked_for}
use sysible_controller.Login.Lockout.{failures, lockout_at_limit}
use sysible_controller.Login.Session.{
  Session, Admin, Accounts, resolve_admin_token, resolve_row, is_stale_session,
  delete_admin_tokens_for_user,
}
use sysible_controller.Login.Steps.{SessionStep, session_steps}
use sysible_controller.Login.Revocation.{
  has_role, resolve-has_role, refusal_is_final, delete-resolve,
}

abbrev guesses : List ℕ
guesses = 1000000000 ∷ 1010250000 ∷ 1020000000 ∷ 1030000000 ∷ []

lockout_at_limit_example :
    let before = failures "10.0.0.9" 300 5 900 guesses [] in
    let (locked, after) = login_throttle_record_failure "10.0.0.9" 300 5 900 1040000000 before in
    (login_throttle_locked_for "10.0.0.9" 1100500000 before ≡ 0)
    × (locked ≡ 900)
    × (login_throttle_locked_for "10.0.0.9" 1100500000 after ≡ 839)
unfolding lookup
lockout_at_limit_example =
    lockout_at_limit "10.0.0.9" 300 5 900 1000000000 1040000000 1100500000 guesses [] refl refl
      (
        (omega arith, omega arith),
        (
          (omega arith, omega arith),
          ((omega arith, omega arith), ((omega arith, omega arith), tt)),
        ),
      )
      (omega arith, omega arith) (omega arith)

-- in place of SHA-256
abbrev hashed : String → String
hashed s = "#" ++ s

abbrev alice : Session
alice = record { username = "alice"; role = "superuser"; expiry = 9000 }

abbrev bob : Session
bob = record { username = "bob"; role = "superuser"; expiry = 9000 }

abbrev admin : String → Admin
admin role = record {
  password_hash = "";
  password_salt = "";
  must_change_password = false;
  created = 1;
  created_by = "alice";
  last_login = none;
  role = role;
  sudo_connect = false;
}

-- bob has been demoted since he logged in
abbrev console : Accounts
console = record {
  admin_tokens = ("#a", alice) ∷ ("#b", bob) ∷ [];
  administrators = ("alice", admin "superuser") ∷ ("bob", admin "auditor") ∷ [];
}

resolved : String → Option (String × String)
unfolding resolve_admin_token resolve_row is_stale_session delete_admin_tokens_for_user lookup
    insert erase
resolved token = (resolve_admin_token hashed token 5000 console).0

sessions : (resolved "a" ≡ some ("alice", "superuser")) × (resolved "b" ≡ none)
unfolding resolved
sessions = (refl, refl)

resolve-has_role_example :
    has_role ("alice", "superuser") (lookup "alice" console.administrators) ≡ true
unfolding resolved
resolve-has_role_example = resolve-has_role hashed "a" 5000 console ("alice", "superuser") refl

-- alice logs out, bob is a superuser again, and carol logs in
abbrev afterwards : List SessionStep
afterwards =
    SessionStep.deleted "a"
    ∷ SessionStep.accounts (("bob", admin "superuser") ∷ ("carol", admin "superuser") ∷ [])
    ∷ SessionStep.created "c" "carol" "superuser" 9000
    ∷ []

refusal_is_final_example :
    let db = session_steps hashed afterwards (resolve_admin_token hashed "b" 5000 console).1 in
    resolve_admin_token hashed "b" 6000 db ≡ (none, db)
unfolding resolved
refusal_is_final_example =
    refusal_is_final hashed "b" 5000 6000 console afterwards refl (refl, (refl, (refl, tt)))

delete-resolve_example : ("alice" == "bob") ≡ false
unfolding resolved
delete-resolve_example =
    delete-resolve hashed "a" "bob" 5000 console ("alice", "superuser") refl refl
