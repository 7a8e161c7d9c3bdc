-- ===== src/Enroll/Takeover.antt =====
-- Who may take over an enrolled host: what `enroll` asks for before it overwrites a credential.
use sysible_controller.Prelude.{
  ◌≡◌, refl, sym, ap, ◌∙◌, inl, inr, String, Bool, true, false, ◌||◌, Option, none, some, lookup,
  if◌then◌else◌, Bool-cases, Option-cases, IsDistinct, keys,
}
use sysible_controller.Enroll.Inventory.{Agent, agent_secret_matches}
use sysible_controller.Enroll.Token.{
  enroll_token_authorizes_rebind, consume_enroll_token, validate_enroll_token,
  resolve_enroll_token_host,
}
use sysible_controller.Enroll.Adoption.{supersedable-IsRow}
use sysible_controller.Enroll.Handler.{
  Request, State, Settings, Times, Reply, host_live, host_taken, enrolled, text_or_empty, prove,
  enroll_admitted, enroll_existing, adopt, enroll, is_within_limit, find_supersedable_agent,
}

-- the host that a reply enrolls
abbrev pub enrolled_host : Reply → Option String
enrolled_host (enrolled host_id secret) = some host_id
enrolled_host _ = none

pub refusal-nobody : (b : Bool) → enrolled_host (if b then host_live else host_taken) ≡ none
refusal-nobody true = refl
refusal-nobody false = refl

module _ (strip digest : String → String) (settings : Settings) (times : Times) (secret : String)
    (req : Request) where
  -- the caller holds the host's secret, or an administrator's token for this very host
  abbrev pub may_rebind : String → State → Bool
  may_rebind h s =
      (agent_secret_matches digest h (text_or_empty req.prev_agent_secret) s.agents).0
      || enroll_token_authorizes_rebind digest settings.limits req.token h times.authorized s.tokens

  pub admitted-host :
      (fresh : Bool) (host_id h : String) (s : State)
      → enrolled_host (enroll_admitted strip digest settings times secret req fresh host_id s).0
        ≡ some h
      → host_id ≡ h
  unfolding enroll_admitted
  admitted-host fresh host_id h s =
      elim (Bool-cases (is_within_limit settings.host_limit host_id s.agents)) [
        | inr full ↦ rw full (λ e. cc e)
        | inl room ↦
            elim (Bool-cases
              (consume_enroll_token digest settings.limits req.token host_id times.consumed
                s.tokens).0) [
                  | inr lost ↦ rw (room, lost) (λ e. cc e)
                  | inl won ↦ rw (room, won) (λ e. cc e)
                ]
      ]

  proof-may_rebind :
      (host_id : String) (s : State)
      → (prove strip digest settings times secret req host_id s).0 ≡ may_rebind host_id s
  unfolding prove
  proof-may_rebind host_id s =
      elim (Bool-cases
        (agent_secret_matches digest host_id (text_or_empty req.prev_agent_secret) s.agents).0) [
          | inl holds ↦ rw holds refl
          | inr other ↦ rw other refl
        ]

  existing-may_rebind :
      (host_id h : String) (a : Agent) (s : State)
      → settings.require_rebind_auth ≡ true
      → enrolled_host (enroll_existing strip digest settings times secret req host_id (some a) s).0
        ≡ some h
      → (host_id ≡ h) × (a.revoked ≡ false) × (may_rebind h s ≡ true)
  unfolding enroll_existing
  existing-may_rebind host_id h a s required = elim (Bool-cases a.revoked) [
    | inl gone ↦ rw gone (λ e. cc e)
    | inr stands ↦ elim (Bool-cases (prove strip digest settings times secret req host_id s).0) [
      | inl proven ↦
          rw (stands, proven)
            λ e.
              let same : host_id ≡ h = admitted-host false host_id h _ e in
              (
                same,
                refl,
                ap (λ x. may_rebind x s) (sym same) ∙ sym (proof-may_rebind host_id s) ∙ proven,
              )
      | inr not_proven ↦ rw (stands, not_proven, required) (λ e. cc (e, refusal-nobody _))
    ]
  ]

  existing-Rebinds :
      (host_id h : String) (row a : Agent) (s : State)
      → settings.require_rebind_auth ≡ true
      → lookup host_id s.agents ≡ some row
      → lookup h s.agents ≡ some a
      → enrolled_host
          (enroll_existing strip digest settings times secret req host_id (some row) s).0
        ≡ some h
      → (a.revoked ≡ false) × (may_rebind h s ≡ true)
  existing-Rebinds host_id h row a s required at found e =
      let (same, stands, may) = existing-may_rebind host_id h row s required e in
      let rows : some row ≡ some a = cc (at, found, same) in
      let it : row ≡ a = cc rows in (cc (it, stands), may)

  fresh-absurd :
      (host_id h : String) (a : Agent) (s : State)
      → lookup host_id s.agents ≡ none
      → lookup h s.agents ≡ some a
      → enrolled_host (enroll_existing strip digest settings times secret req host_id none s).0
        ≡ some h
      → (a.revoked ≡ false) × (may_rebind h s ≡ true)
  unfolding enroll_existing
  fresh-absurd host_id h a s gone found e =
      let same = admitted-host true host_id h s e in cc (gone, found, same)

  -- No takeover. Where a host is in the inventory, and the controller asks for authorization, which is
  -- its default, a request is enrolled as this host only if the host is not revoked, and the caller
  -- presented the host's secret or a token that an administrator issued for this very host. This
  -- holds for a token of any kind, and also where the record is adopted as a duplicate.
  pub enroll_takes_proof :
      (h : String) (a : Agent) (s : State)
      → IsDistinct (keys s.agents)
      → settings.require_rebind_auth ≡ true
      → lookup h s.agents ≡ some a
      → enrolled_host (enroll strip digest settings times secret req s).0 ≡ some h
      → (a.revoked ≡ false) × (may_rebind h s ≡ true)
  unfolding enroll adopt
  enroll_takes_proof h a s distinct required found =
      let asked = resolve_enroll_token_host digest settings.limits req.token req.host_id s.tokens in
      elim (Bool-cases (
        validate_enroll_token digest settings.limits req.token times.validated times.reused
          s.tokens)) [
            | inr invalid ↦ rw invalid (λ e. cc e)
            | inl valid ↦ elim (Option-cases (lookup asked s.agents)) [
              | inr (row, at) ↦
                  rw (valid, at) λ e. existing-Rebinds asked h row a s required at found e
              | inl gone ↦
                  elim (Option-cases (
                    find_supersedable_agent strip digest settings times secret req asked
                      s.agents)) [
                        | inl nobody ↦
                            rw (valid, gone, nobody) λ e. fresh-absurd asked h a s gone found e
                        | inr (dup, adopted) ↦
                            let (at, _) =
                              supersedable-IsRow strip digest settings times secret req asked
                                s.agents dup distinct adopted in
                            rw (valid, gone, adopted)
                              λ e. existing-Rebinds dup.0 h dup.1 a s required at found e
                      ]
            ]
          ]
