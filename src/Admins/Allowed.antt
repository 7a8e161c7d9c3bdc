-- ===== src/Admins/Allowed.antt =====
-- Who a request succeeds for, and what it revokes.
use sysible_controller.Prelude.{
  ℕ, ◌≡◌, refl, String, Bool, true, false, not, ◌&&◌, Option, none, some, lookup, nat_eq, ◌==◌,
  Bool-cases, inl, inr, ◌⊎◌, subst, if◌then◌else◌, arith, eq_iff,
}
use sysible_controller.Login.Session.{Admin, Accounts, effective_role, resolve_admin_token}
use sysible_controller.Login.Revocation.{has_role, resolve-has_role}
use sysible_controller.Admins.Table.{count_administrators, get_administrator}
use sysible_controller.Admins.Gate.{require_superuser, judge_superuser, must_change, bootstrap}
use sysible_controller.Admins.Routes.{done}
use sysible_controller.Admins.Serve.{Request, enter, serve}
use sysible_controller.Admins.Refines.{resolve-administrators}

-- a live superuser who does not have to change the password
abbrev pub is_superuser : Option Admin → Bool
is_superuser none = false
is_superuser (some a) = effective_role a.role == "superuser" && not a.must_change_password

-- what lets a request in: a session of such a superuser, or no administrator at all
abbrev pub IsAllowed : (String → String) → Request → Accounts → Type 0
IsAllowed digest r db =
    ((r.token ≡ "") × (count_administrators db ≡ 0))
    ⊎ ((who : String × String) × ((resolve_admin_token digest r.token r.now db).0 ≡ some who)
        × (is_superuser (get_administrator who.0 db) ≡ true))

unlocked : (a : Admin) → must_change (some a) ≡ none → a.must_change_password ≡ false
unlocked a = elim (Bool-cases a.must_change_password) [
  | inl e ↦ rw e λ bad. absurd (cc bad)
  | inr e ↦ λ _. e
]

is_superuser-judged :
    (who : String × String) (o : Option Admin)
    → has_role who o ≡ true
    → (if who.1 == "superuser" then must_change o else some 403) ≡ none
    → is_superuser o ≡ true
is_superuser-judged who none h = absurd (cc h)
is_superuser-judged who (some a) h = elim (Bool-cases (who.1 == "superuser")) [
  | inr other ↦ rw other λ e. absurd (cc e)
  | inl super ↦ rw super λ e.
      let role : (effective_role a.role == "superuser") ≡ true =
        subst (λ r. (effective_role a.role == effective_role r) ≡ true)
          ((eq_iff who.1 "superuser").0 super) h in
      rw (role, unlocked a e) refl
]

judged :
    (g : Option (String × String) × Accounts)
    → (judge_superuser g).0 ≡ none
    → (who : String × String) × (g.0 ≡ some who)
      × ((if who.1 == "superuser" then must_change (get_administrator who.0 g.1) else some 403)
          ≡ none)
unfolding judge_superuser
judged (none, db) e = absurd (cc e)
judged (some who, db) e = (who, refl, e)

module _ (digest : String → String) where
  first_run : (db : Accounts) → (bootstrap db).0 ≡ none → count_administrators db ≡ 0
  first_run db = elim (Bool-cases (nat_eq (count_administrators db) 0)) [
    | inl e ↦ λ _. ground (arith, e)
    | inr e ↦ rw e λ bad. absurd (cc bad)
  ]

  passed_session :
      (token : String) (now : ℕ) (db : Accounts)
      → (judge_superuser (resolve_admin_token digest token now db)).0 ≡ none
      → (who : String × String) × ((resolve_admin_token digest token now db).0 ≡ some who)
        × (is_superuser (get_administrator who.0 db) ≡ true)
  passed_session token now db e =
      let (who, at, open_to) = judged (resolve_admin_token digest token now db) e in
      let live = resolve-has_role digest token now db who at in
      let same = resolve-administrators digest token now db in
      (
        who,
        at,
        is_superuser-judged who (get_administrator who.0 db) live (
            subst
              (λ rows.
                (if who.1 == "superuser" then must_change (lookup who.0 rows) else some 403) ≡ none)
              same open_to),
      )

  gate-IsAllowed :
      (r : Request) (db : Accounts)
      → (require_superuser digest r.token r.now db).0 ≡ none
      → IsAllowed digest r db
  unfolding require_superuser
  gate-IsAllowed r db = elim (Bool-cases (r.token == "")) [
    | inl e ↦ rw e λ pass. inl ((eq_iff r.token "").0 e, first_run db pass)
    | inr e ↦ rw e λ pass. inr (passed_session r.token r.now db pass)
  ]

  module _ (strip lower : String → String) where
    entered :
        (r : Request) (g : Option ℕ × Accounts) (status : String)
        → (enter digest strip lower r.token r.now r.call g).answer ≡ done status
        → g.0 ≡ none
    entered r (some code, db) status e = absurd (cc e)
    entered r (none, db) status e = refl

    -- A request succeeds only with the key of the API, and only where there is no administrator yet and it has
    -- no token, or where its token is, at that moment, a session of an account that exists, is a superuser's,
    -- and does not have to change its password.
    pub serve-done-IsAllowed :
        (r : Request) (db : Accounts) (status : String)
        → (serve digest strip lower r db).answer ≡ done status
        → (r.has_key ≡ true) × IsAllowed digest r db
    unfolding serve
    serve-done-IsAllowed r db status = elim (Bool-cases r.has_key) [
      | inl e ↦ rw e λ ok. (
        refl,
        gate-IsAllowed r db (entered r (require_superuser digest r.token r.now db) status ok),
      )
      | inr e ↦ rw e λ bad. absurd (cc bad)
    ]
