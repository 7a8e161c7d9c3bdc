-- ===== src/Enroll/Admission.antt =====
-- What an enrollment leaves: a credential that `verify_agent` accepts.
use sysible_controller.Prelude.{
  ◌≡◌, refl, ap, ◌∙◌, subst, String, Bool, true, false, not, ◌&&◌, Option, none, some, [], ◌∷◌,
  Dict, lookup, lookup-insert_self, ◌==◌, if◌then◌else◌, eq_refl, Bool-cases, inl, inr,
}
use sysible_controller.Enroll.Inventory.{
  Agent, update_agent, create_or_update_agent, agent_secret_matches, matches_stored,
  get_agent_secret, is_agent_revoked, verify_agent,
}
use sysible_controller.Enroll.Token.{
  consume_enroll_token, validate_enroll_token, resolve_enroll_token_host,
}
use sysible_controller.Enroll.Handler.{
  Request, State, Settings, Times, inherit, set_agent_environment, enter_environment, save_agent,
  prove, enroll_admitted, enroll_existing, adopt, enroll, is_within_limit, find_supersedable_agent,
}
use sysible_controller.Enroll.Takeover.{enrolled_host, refusal-nobody}

-- The host has a row that is not revoked and holds the hash.
pub record IsAdmitted (h hash : String) (agents : Dict Agent) : Type 0 where
  pub row : Agent
  pub found : lookup h agents ≡ some row
  pub stands : row.revoked ≡ false
  pub keyed : row.agent_secret ≡ some hash

abbrev map_row : (Agent → Agent) → Option Agent → Option Agent
map_row f none = none
map_row f (some row) = some (f row)

lookup-update_agent :
    (f : Agent → Agent) (h : String) (agents : Dict Agent) (row : Agent)
    → lookup h agents ≡ some row
    → lookup h (update_agent f h agents) ≡ some (f row)
unfolding lookup update_agent
lookup-update_agent f h [] row = λ e. cc e
lookup-update_agent f h ((k, v) ∷ agents) row =
    let rest = lookup-update_agent f h agents row in
    elim (Bool-cases (h == k)) [
      | inl same ↦ rw (same, same) λ e. ap (map_row f) e
      | inr other ↦ rw (other, other) rest
    ]

module _ (h hash : String) where
  update-IsAdmitted :
      (f : Agent → Agent) (agents : Dict Agent)
      → ((row : Agent) → (f row).revoked ≡ row.revoked)
      → ((row : Agent) → (f row).agent_secret ≡ row.agent_secret)
      → IsAdmitted h hash agents
      → IsAdmitted h hash (update_agent f h agents)
  update-IsAdmitted f agents same_flag same_secret p = record {
    row = f p.row;
    found = lookup-update_agent f h agents p.row p.found;
    stands = same_flag p.row ∙ p.stands;
    keyed = same_secret p.row ∙ p.keyed;
  }

  inherit-IsAdmitted :
      (o : Option Bool) (agents : Dict Agent)
      → IsAdmitted h hash agents
      → IsAdmitted h hash (inherit o h agents)
  unfolding inherit
  inherit-IsAdmitted none agents p = p
  inherit-IsAdmitted (some required) agents p =
      update-IsAdmitted _ agents (λ row. refl) (λ row. refl) p

  enter_if :
      (s s' : State) (b : Bool)
      → IsAdmitted h hash s.agents
      → IsAdmitted h hash s'.agents
      → IsAdmitted h hash (if b then s else s').agents
  enter_if s s' true p p' = p
  enter_if s s' false p p' = p'

  environment-IsAdmitted :
      (environment : String) (s : State)
      → IsAdmitted h hash s.agents
      → IsAdmitted h hash (set_agent_environment h environment s).agents
  unfolding set_agent_environment
  environment-IsAdmitted environment s p =
      inherit-IsAdmitted _ _ (update-IsAdmitted _ s.agents (λ row. refl) (λ row. refl) p)

  enter-IsAdmitted :
      (fresh : Bool) (environment : String) (s : State)
      → IsAdmitted h hash s.agents
      → IsAdmitted h hash (enter_environment fresh environment h s).agents
  unfolding enter_environment
  enter-IsAdmitted fresh environment s p =
      enter_if _ _ (fresh && not (environment == "")) (environment-IsAdmitted environment s p) p

module _ (strip digest : String → String) (settings : Settings) (times : Times) (secret : String)
    (req : Request) where
  save-IsAdmitted :
      (fresh : Bool) (h : String) (s : State)
      → (secret == "") ≡ false
      → IsAdmitted h
          (digest secret)
          (save_agent strip digest settings times secret req fresh h s).agents
  unfolding save_agent create_or_update_agent
  save-IsAdmitted fresh h s given = enter-IsAdmitted h (digest secret) fresh _ _ (record {
    row = _;
    found = lookup-insert_self h _ s.agents;
    stands = refl;
    keyed = rw given refl;
  })

  verify-IsAdmitted :
      (h : String) (agents : Dict Agent)
      → (secret == "") ≡ false
      → (digest secret == "") ≡ false
      → IsAdmitted h (digest secret) agents
      → (verify_agent digest h secret agents).0 ≡ none
  unfolding verify_agent agent_secret_matches matches_stored get_agent_secret is_agent_revoked
  verify-IsAdmitted h agents given hashed p =
      rw (p.found, p.stands, given, p.keyed, hashed, eq_refl (digest secret)) refl

  enroll_admitted-IsAdmitted :
      (fresh : Bool) (host_id h : String) (s : State)
      → (secret == "") ≡ false
      → let (reply, s') = enroll_admitted strip digest settings times secret req fresh host_id s in
        enrolled_host reply ≡ some h → IsAdmitted h (digest secret) s'.agents
  unfolding enroll_admitted
  enroll_admitted-IsAdmitted fresh host_id h s given =
      elim (Bool-cases (is_within_limit settings.host_limit host_id s.agents)) [
        | inr full ↦ rw full (λ e. cc e)
        | inl room ↦
            elim (Bool-cases
              (consume_enroll_token digest settings.limits req.token host_id times.consumed
                s.tokens).0) [
                  | inr lost ↦ rw (room, lost) (λ e. cc e)
                  | inl won ↦
                      rw (room, won)
                        λ e.
                          let same : host_id ≡ h = cc e in
                          let tokens =
                            (consume_enroll_token digest settings.limits req.token host_id
                              times.consumed s.tokens).1 in
                          let saved =
                            save_agent strip digest settings times secret req fresh host_id
                              (record s { tokens = tokens }) in
                          subst (λ x. IsAdmitted x (digest secret) saved.agents) same
                            (save-IsAdmitted fresh host_id (record s { tokens = tokens }) given)
                ]
      ]

  existing-IsAdmitted :
      (host_id h : String) (o : Option Agent) (s : State)
      → (secret == "") ≡ false
      → let (reply, s') = enroll_existing strip digest settings times secret req host_id o s in
        enrolled_host reply ≡ some h → IsAdmitted h (digest secret) s'.agents
  unfolding enroll_existing
  existing-IsAdmitted host_id h none s given = enroll_admitted-IsAdmitted true host_id h s given
  existing-IsAdmitted host_id h (some a) s given = elim (Bool-cases a.revoked) [
    | inl gone ↦ rw gone (λ e. cc e)
    | inr stands ↦
        let (proven, s') = prove strip digest settings times secret req host_id s in
        elim (Bool-cases (not proven && settings.require_rebind_auth)) [
          | inl refused ↦ rw (stands, refused) (λ e. cc (e, refusal-nobody _))
          | inr goes_on ↦ rw (stands, goes_on) (enroll_admitted-IsAdmitted false host_id h s' given)
        ]
  ]

  -- An enrollment works. The secret that `enroll` returns for a host, in whatever way the host came to
  -- be enrolled, is one that `verify_agent` accepts for it on the inventory it leaves, where neither
  -- the secret nor its hash is the empty text.
  pub enroll-verify_agent :
      (h : String) (s : State)
      → (secret == "") ≡ false
      → (digest secret == "") ≡ false
      → enrolled_host (enroll strip digest settings times secret req s).0 ≡ some h
      → (verify_agent digest h secret (enroll strip digest settings times secret req s).1.agents).0
        ≡ none
  unfolding enroll
  enroll-verify_agent h s given hashed =
      let asked = resolve_enroll_token_host digest settings.limits req.token req.host_id s.tokens in
      let adopted =
        adopt asked (lookup asked s.agents)
          (find_supersedable_agent strip digest settings times secret req asked s.agents) in
      elim (Bool-cases (
        validate_enroll_token digest settings.limits req.token times.validated times.reused
          s.tokens)) [
            | inr invalid ↦ rw invalid (λ e. cc e)
            | inl valid ↦ rw valid λ e.
                verify-IsAdmitted h _ given hashed
                  (existing-IsAdmitted adopted.0 h adopted.1 s given e)
          ]
