-- ===== src/Login/Steps.antt =====
-- What may happen to the sessions after a refusal, and that a token without a session gets none by it.
use sysible_controller.Prelude.{
  ℕ, ◌≡◌, refl, String, Bool, true, not, Option, none, some, List, [], ◌∷◌, All, select, Dict,
  lookup, erase, lookup-erase, lookup-insert, ◌==◌, arith, Bool-cases, inl, inr,
}
use sysible_controller.Login.Session.{
  Session, Admin, Accounts, is_stale_session, resolve_row, resolve_admin_token,
  delete_admin_tokens_for_user, create_admin_token, delete_admin_token,
}

-- the four operations on the sessions, and any write of the accounts
pub data SessionStep : Type 0 where
  created : String → String → String → ℕ → SessionStep
  resolved : String → ℕ → SessionStep
  deleted : String → SessionStep
  deleted_for_user : String → SessionStep
  accounts : Dict Admin → SessionStep

module _ (digest : String → String) where
  unfoldable pub session_step : SessionStep → Accounts → Accounts
  unfolding create_admin_token resolve_admin_token delete_admin_token delete_admin_tokens_for_user
  session_step (created token username role expiry) db =
      create_admin_token digest token username role expiry db
  session_step (resolved token now) db = (resolve_admin_token digest token now db).1
  session_step (deleted token) db = delete_admin_token digest token db
  session_step (deleted_for_user username) db = delete_admin_tokens_for_user username db
  session_step (accounts administrators) db = record db { administrators = administrators }

  unfoldable pub session_steps : List SessionStep → Accounts → Accounts
  unfolding session_step
  session_steps [] db = db
  session_steps (step ∷ steps) db = session_steps steps (session_step step db)

  -- no session is created under the token
  abbrev pub spares : String → SessionStep → Bool
  spares token (created other username role expiry) = not (digest token == digest other)
  spares token _ = true

  erase_gone :
      (key other : String) (rows : Dict Session)
      → lookup key rows ≡ none
      → lookup key (erase other rows) ≡ none
  erase_gone key other rows e = rw (lookup-erase, e) (ground arith)

  select_gone :
      (key username : String) (rows : Dict Session)
      → lookup key rows ≡ none
      → lookup key (select (λ row. not (row.1.username == username)) rows) ≡ none
  unfolding lookup
  select_gone key username [] = λ e. refl
  select_gone key username ((k, v) ∷ rows) =
      let rest = select_gone key username rows in
      elim (Bool-cases (key == k)) [
        | inl here ↦ rw here λ e. cc e
        | inr there ↦ rw there λ e. elim (Bool-cases (v.username == username)) [
          | inl theirs ↦ rw theirs (rest e)
          | inr other ↦ rw (other, there) (rest e)
        ]
      ]

  row_gone :
      (now : ℕ) (key other : String) (o : Option Session) (db : Accounts)
      → lookup key db.admin_tokens ≡ none
      → lookup key (resolve_row now other o db).1.admin_tokens ≡ none
  unfolding resolve_row
  row_gone now key other none db e = e
  row_gone now key other (some session) db e =
      elim (Bool-cases (is_stale_session now db.administrators session)) [
        | inl stale ↦ rw stale (erase_gone key other db.admin_tokens e)
        | inr live ↦ rw live e
      ]

  created_gone :
      (token other username role : String) (expiry : ℕ) (db : Accounts)
      → not (digest token == digest other) ≡ true
      → lookup (digest token) db.admin_tokens ≡ none
      → lookup (digest token) (create_admin_token digest other username role expiry db).admin_tokens
        ≡ none
  unfolding create_admin_token
  created_gone token other username role expiry db spared e =
      rw (lookup-insert, e) (ground (arith, spared))

  resolved_gone :
      (token other : String) (now : ℕ) (db : Accounts)
      → lookup (digest token) db.admin_tokens ≡ none
      → lookup (digest token) (resolve_admin_token digest other now db).1.admin_tokens ≡ none
  unfolding resolve_admin_token
  resolved_gone token other now db e = elim (Bool-cases (other == "")) [
    | inl empty ↦ rw empty e
    | inr given ↦
        rw given
          (row_gone now (digest token) (digest other) (lookup (digest other) db.admin_tokens) db e)
  ]

  deleted_gone :
      (token other : String) (db : Accounts)
      → lookup (digest token) db.admin_tokens ≡ none
      → lookup (digest token) (delete_admin_token digest other db).admin_tokens ≡ none
  unfolding delete_admin_token
  deleted_gone token other db e = elim (Bool-cases (other == "")) [
    | inl empty ↦ rw empty e
    | inr given ↦ rw given (erase_gone (digest token) (digest other) db.admin_tokens e)
  ]

  user_gone :
      (token username : String) (db : Accounts)
      → lookup (digest token) db.admin_tokens ≡ none
      → lookup (digest token) (delete_admin_tokens_for_user username db).admin_tokens ≡ none
  unfolding delete_admin_tokens_for_user
  user_gone token username db e = elim (Bool-cases (username == "")) [
    | inl empty ↦ rw empty e
    | inr given ↦ rw given (select_gone (digest token) username db.admin_tokens e)
  ]

  step_gone :
      (token : String) (step : SessionStep) (db : Accounts)
      → spares token step ≡ true
      → lookup (digest token) db.admin_tokens ≡ none
      → lookup (digest token) (session_step step db).admin_tokens ≡ none
  unfolding session_step
  step_gone token (created other username role expiry) db spared e =
      created_gone token other username role expiry db spared e
  step_gone token (resolved other now) db spared e = resolved_gone token other now db e
  step_gone token (deleted other) db spared e = deleted_gone token other db e
  step_gone token (deleted_for_user username) db spared e = user_gone token username db e
  step_gone token (accounts administrators) db spared e = e

  pub steps_gone :
      (token : String) (steps : List SessionStep) (db : Accounts)
      → All (λ step. spares token step ≡ true) steps
      → lookup (digest token) db.admin_tokens ≡ none
      → lookup (digest token) (session_steps steps db).admin_tokens ≡ none
  unfolding session_steps
  steps_gone token [] db spared e = e
  steps_gone token (step ∷ steps) db spared e =
      steps_gone token steps (session_step step db) spared.1 (step_gone token step db spared.0 e)
