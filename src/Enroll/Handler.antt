-- ===== src/Enroll/Handler.antt =====
-- backend/app.py: `enroll`, from the enroll lock to its release, with `_find_agent`,
-- `_find_supersedable_agent`, `enforce_host_limit` and `set_agent_environment`.
use sysible_controller.Prelude.{
  ℕ, ◌+◌, String, Bool, true, false, not, ◌&&◌, ◌||◌, Option, none, some, List, [], ◌∷◌, length,
  select, Dict, lookup, contains_key, ltb, leb, ◌==◌, if◌then◌else◌, not_after, keys,
}
use sysible_controller.Integrity.State.{Host, rebaseline}
use sysible_controller.Enroll.Inventory.{
  Agent, update_agent, create_or_update_agent, agent_secret_matches,
}
use sysible_controller.Enroll.Token.{
  Token, Limits, validate_enroll_token, resolve_enroll_token_host, enroll_token_authorizes_rebind,
  consume_enroll_token, enroll_token_environment,
}

pub record Request : Type 0 where
  pub token : String
  pub host_id : String
  pub hostname : Option String
  pub platform : Option String
  pub kernel : Option String
  pub ip : Option String
  pub prev_agent_secret : Option String

-- What the handler reads and writes. `environments` is a table from a name to its sudo default, and
-- `integrity` the state file of backend/agent_integrity.py.
pub record State : Type 0 where
  pub agents : Dict Agent
  pub tokens : Dict Token
  pub environments : Dict Bool
  pub integrity : Dict Host

-- _REENROLL_LIVE_HOST_GRACE_S, _ENROLL_REQUIRE_REBIND_AUTH, HOST_LIMIT
pub record Settings : Type 0 where
  pub limits : Limits
  pub live_grace : ℕ
  pub require_rebind_auth : Bool
  pub host_limit : Option ℕ

-- the readings of the clock, in their order
pub record Times : Type 0 where
  pub validated : ℕ
  pub reused : ℕ
  pub searched : ℕ
  pub authorized : ℕ
  pub refused : ℕ
  pub consumed : ℕ
  pub saved : ℕ

-- what the handler raises, and what it goes on with after the lock
pub data Reply : Type 0 where
  invalid_token host_revoked host_live host_taken limit_reached token_claimed : Reply
  enrolled : String → String → Reply

-- `ORDER BY hostname`: rows without one come first, and equal ones keep the order of the table
abbrev pub comes_first : Option String → Option String → Bool
comes_first none b = true
comes_first (some a) none = false
comes_first (some a) (some b) = not_after a b

unfoldable pub place : String × Agent → Dict Agent → Dict Agent
place row [] = row ∷ []
place row (r ∷ rows) =
    if comes_first row.1.hostname r.1.hostname then row ∷ r ∷ rows else r ∷ place row rows

unfoldable pub list_agents : Dict Agent → Dict Agent
unfolding place
list_agents [] = []
list_agents (row ∷ rows) = place row (list_agents rows)

abbrev pub seen_at : Agent → ℕ
seen_at a = elim a.last_seen [ none ↦ 0 | some at ↦ at ]

-- `time.time() - last_seen < _REENROLL_LIVE_HOST_GRACE_S`
abbrev pub is_live : ℕ → ℕ → Agent → Bool
is_live grace now a = ltb now (seen_at a + grace)

-- the stable sort by the last sighting, the latest first, and its first row
unfoldable pub later_seen : String × Agent → Option (String × Agent) → String × Agent
later_seen row none = row
later_seen row (some r) = if leb (seen_at r.1) (seen_at row.1) then row else r

unfoldable pub latest : Dict Agent → Option (String × Agent)
unfolding later_seen
latest [] = none
latest (row ∷ rows) = some (later_seen row (latest rows))

abbrev pub text_or_empty : Option String → String
text_or_empty none = ""
text_or_empty (some s) = s

-- the set of the ids under management
abbrev pub host_identities : Dict Agent → List String
host_identities agents = select (λ id. not (id == "")) (keys agents)

-- `enforce_host_limit`: whether it returns
abbrev pub is_within_limit : Option ℕ → String → Dict Agent → Bool
is_within_limit none host_id agents = true
is_within_limit (some limit) host_id agents =
    (contains_key host_id agents && not (host_id == ""))
    || ltb (length (host_identities agents)) limit

-- the environment's sudo default, where it has one
unfoldable pub inherit : Option Bool → String → Dict Agent → Dict Agent
unfolding update_agent
inherit none host_id agents = agents
inherit (some required) host_id agents =
    update_agent (λ row. record row { requires_sudo_password = required }) host_id agents

unfoldable pub set_agent_environment : String → String → State → State
unfolding update_agent inherit
set_agent_environment host_id environment s =
    let placed =
      update_agent (λ row. record row { environment = some environment }) host_id s.agents in
    let default : Option Bool =
      if environment == "" then none else lookup environment s.environments in
    record s { agents = inherit default host_id placed }

-- `if is_fresh_enroll:` and `if _bundle_env:`
unfoldable pub enter_environment : Bool → String → String → State → State
unfolding set_agent_environment
enter_environment is_fresh environment host_id s =
    if is_fresh && not (environment == "") then set_agent_environment host_id environment s else s

-- the duplicate's id and record where the host has none
unfoldable pub adopt : String → Option Agent → Option (String × Agent) → String × Option Agent
adopt host_id (some existing) dup = (host_id, some existing)
adopt host_id none none = (host_id, none)
adopt host_id none (some (id, row)) = (id, some row)

-- `strip` is Python's `str.strip`, `digest` is as in the inventory, and `secret` is
-- what `secrets.token_hex` gives.
module _ (strip digest : String → String) (settings : Settings) (times : Times) (secret : String)
    (req : Request) where
  -- the tests in the loop of `_find_supersedable_agent`
  abbrev pub is_candidate : String → String → String × Agent → Bool
  is_candidate ip exclude (id, a) =
      let in_host = strip (text_or_empty req.hostname) in
      let a_host = strip (text_or_empty a.hostname) in
      not (id == exclude)
      && text_or_empty a.ip == ip
      && not (not (in_host == "") && not (a_host == "") && not (a_host == in_host))
      && not a.revoked
      && not (is_live settings.live_grace times.searched a)

  unfoldable pub find_supersedable_agent : String → Dict Agent → Option (String × Agent)
  unfolding list_agents latest
  find_supersedable_agent exclude agents =
      let ip = text_or_empty req.ip in
      if ip == "" then none else latest (select (is_candidate ip exclude) (list_agents agents))

  -- P1 and P3, the latter where the former fails
  unfoldable pub prove : String → State → Bool × State
  prove host_id s =
      let (holds, agents) =
        agent_secret_matches digest host_id (text_or_empty req.prev_agent_secret) s.agents in
      let s' : State = record s { agents = agents } in
      if holds then (true, s') else (
        enroll_token_authorizes_rebind digest settings.limits req.token host_id times.authorized
            s'.tokens,
        s',
      )

  -- the row, the environment of the bundle, and the baseline
  unfoldable pub save_agent : Bool → String → State → State
  unfolding enter_environment
  save_agent is_fresh host_id s =
      let s' : State = record s {
        agents =
            create_or_update_agent digest host_id req.hostname req.platform req.kernel "online"
              times.saved (some secret) req.ip s.agents;
      } in
      let environment = enroll_token_environment digest settings.limits req.token s'.tokens in
      let s'' = enter_environment is_fresh environment host_id s' in
      record s'' { integrity = rebaseline true host_id s''.integrity }

  -- from the host limit on
  unfoldable pub enroll_admitted : Bool → String → State → Reply × State
  enroll_admitted is_fresh host_id s =
      if not (is_within_limit settings.host_limit host_id s.agents)
      then (limit_reached, s)
      else let (claimed, tokens) =
          consume_enroll_token digest settings.limits req.token host_id times.consumed s.tokens in
        if not claimed
        then (token_claimed, s)
        else (enrolled host_id secret, save_agent is_fresh host_id (record s { tokens = tokens }))

  -- with the existing record, or without one
  unfoldable pub enroll_existing : String → Option Agent → State → Reply × State
  enroll_existing host_id none s = enroll_admitted true host_id s
  enroll_existing host_id (some existing) s =
      if existing.revoked
      then (host_revoked, s)
      else let (proven, s') = prove host_id s in
        if not proven && settings.require_rebind_auth
        then (
          if is_live settings.live_grace times.refused existing then host_live else host_taken,
          s',
        )
        else enroll_admitted false host_id s'

  unfoldable pub enroll : State → Reply × State
  enroll s =
      if not (
        validate_enroll_token digest settings.limits req.token times.validated times.reused
          s.tokens)
      then (invalid_token, s)
      else let requested =
          resolve_enroll_token_host digest settings.limits req.token req.host_id s.tokens in
        let (host_id, existing) =
          adopt requested (lookup requested s.agents)
            (find_supersedable_agent requested s.agents) in
        enroll_existing host_id existing s
