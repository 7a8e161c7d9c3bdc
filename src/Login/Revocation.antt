-- ===== src/Login/Revocation.antt =====
-- What a session is good for: a live account in its role, and nothing after a revocation.
use sysible_controller.Prelude.{
  ℕ, ◌≡◌, refl, String, Bool, true, false, not, Option, none, some, List, [], ◌∷◌, All, select,
  Dict, lookup, lookup-erase, subst, ◌==◌, arith, eq_refl, Bool-cases, inl, inr,
}
use sysible_controller.Login.Session.{
  Session, Admin, Accounts, effective_role, is_other_role, is_stale_session, resolve_row,
  resolve_admin_token, delete_admin_tokens_for_user,
}
use sysible_controller.Login.Steps.{SessionStep, session_steps, spares, steps_gone}

-- The administrator has an account, and it has this role, where no role reads as `superuser`.
abbrev pub has_role : String × String → Option Admin → Bool
has_role who none = false
has_role who (some live) = effective_role live.role == effective_role who.1

same_role :
    (o : Option Admin) (u role : String)
    → is_other_role o role ≡ false
    → has_role (u, role) o ≡ true
same_role none u role h = ground (arith, h)
same_role (some live) u role h = ground (arith, h)

fresh_role :
    (now : ℕ) (administrators : Dict Admin) (session : Session)
    → is_stale_session now administrators session ≡ false
    → is_other_role (lookup session.username administrators) session.role ≡ false
unfolding is_stale_session
fresh_role now administrators session h = ground (arith, h)

row_live :
    (now : ℕ) (key : String) (o : Option Session) (db : Accounts) (who : String × String)
    → (resolve_row now key o db).0 ≡ some who
    → has_role who (lookup who.0 db.administrators) ≡ true
unfolding resolve_row
row_live now key none db who = λ e. cc e
row_live now key (some session) db who =
    elim (Bool-cases (is_stale_session now db.administrators session)) [
      | inl stale ↦ rw stale λ e. cc e
      | inr live ↦ rw live λ e.
          let same : (session.username, session.role) ≡ who = cc e in
          subst (λ (w : String × String). has_role w (lookup w.0 db.administrators) ≡ true) same
            (same_role (lookup session.username db.administrators) session.username session.role
              (fresh_role now db.administrators session live))
    ]

row_refused :
    (now : ℕ) (key : String) (o : Option Session) (db : Accounts)
    → lookup key db.admin_tokens ≡ o
    → (resolve_row now key o db).0 ≡ none
    → lookup key (resolve_row now key o db).1.admin_tokens ≡ none
unfolding resolve_row
row_refused now key none db at = λ e. at
row_refused now key (some session) db at =
    elim (Bool-cases (is_stale_session now db.administrators session)) [
      | inl stale ↦ rw stale λ e. rw (lookup-erase, eq_refl) refl
      | inr live ↦ rw live λ e. cc e
    ]

others_only :
    (key username : String) (rows : Dict Session) (session : Session)
    → lookup key (select (λ row. not (row.1.username == username)) rows) ≡ some session
    → (session.username == username) ≡ false
unfolding lookup
others_only key username [] session = λ e. cc e
others_only key username ((k, v) ∷ rows) session =
    let rest = others_only key username rows session in
    elim (Bool-cases (v.username == username)) [
      | inl theirs ↦ rw theirs rest
      | inr other ↦ rw other (elim (Bool-cases (key == k)) [
        | inl here ↦ rw here λ e. let same : v ≡ session = cc e in cc (same, other)
        | inr there ↦ rw there rest
      ])
    ]

row_other :
    (now : ℕ) (key username : String) (o : Option Session) (db : Accounts) (who : String × String)
    → ((session : Session) → o ≡ some session → (session.username == username) ≡ false)
    → (resolve_row now key o db).0 ≡ some who
    → (who.0 == username) ≡ false
unfolding resolve_row
row_other now key username none db who h = λ e. cc e
row_other now key username (some session) db who h =
    elim (Bool-cases (is_stale_session now db.administrators session)) [
      | inl stale ↦ rw stale λ e. cc e
      | inr live ↦ rw live λ e.
          let same : (session.username, session.role) ≡ who = cc e in
          subst (λ (w : String × String). (w.0 == username) ≡ false) same (h session refl)
    ]

-- A session stands for a live account in its role. Whenever a token resolves to an administrator, the
-- account exists at that moment and has the role of the session: a session does not outlive the
-- removal or a change of the role.
pub resolve-has_role :
    (digest : String → String) (token : String) (now : ℕ) (db : Accounts) (who : String × String)
    → (resolve_admin_token digest token now db).0 ≡ some who
    → has_role who (lookup who.0 db.administrators) ≡ true
unfolding resolve_admin_token
resolve-has_role digest token now db who = elim (Bool-cases (token == "")) [
  | inl empty ↦ rw empty λ e. cc e
  | inr given ↦
      rw given (row_live now (digest token) (lookup (digest token) db.admin_tokens) db who)
]

-- A refusal is final. A token that did not resolve, because it is unknown, expired, or its account is
-- gone or has another role, does not resolve at any later time either, whatever happens to the sessions and
-- the accounts in between, as long as no session is created under a token of the same digest.
pub refusal_is_final :
    (digest : String → String) (token : String) (now later : ℕ) (db : Accounts)
    (steps : List SessionStep)
    → (resolve_admin_token digest token now db).0 ≡ none
    → All (λ step. spares digest token step ≡ true) steps
    → let db' = session_steps digest steps (resolve_admin_token digest token now db).1 in
      resolve_admin_token digest token later db' ≡ (none, db')
unfolding resolve_admin_token
refusal_is_final digest token now later db steps = elim (Bool-cases (token == "")) [
  | inl empty ↦ rw empty λ e spared. refl
  | inr given ↦ rw given λ e spared.
      rw
        (steps_gone digest token steps
          (resolve_row now (digest token) (lookup (digest token) db.admin_tokens) db).1 spared
          (row_refused now (digest token) (lookup (digest token) db.admin_tokens) db refl e))
        refl
]

-- Revoking a user's sessions leaves none: afterwards no token resolves to that
-- user. The username is not the empty text.
pub delete-resolve :
    (digest : String → String) (token username : String) (now : ℕ) (db : Accounts)
    (who : String × String)
    → (username == "") ≡ false
    → (resolve_admin_token digest token now (delete_admin_tokens_for_user username db)).0 ≡ some who
    → (who.0 == username) ≡ false
unfolding resolve_admin_token delete_admin_tokens_for_user
delete-resolve digest token username now db who named = elim (Bool-cases (token == "")) [
  | inl empty ↦ rw empty λ e. cc e
  | inr given ↦
      rw (given, named)
        (row_other now (digest token) username _ _ who
          (others_only (digest token) username db.admin_tokens))
]
