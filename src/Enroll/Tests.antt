-- ===== src/Enroll/Tests.antt =====
-- Enrollments of small inventories, and the theorems at them.
use sysible_controller.Prelude.{
  arith, ◌≡◌, refl, String, true, false, Option, none, some, [], ◌∷◌, List, lookup, insert,
}
use Prim.Native.String.{◌++◌}
use sysible_controller.Integrity.State.{rebaseline}
use sysible_controller.Enroll.Inventory.{
  Agent, blank, create_or_update_agent, update_agent, matches_stored, agent_secret_matches,
  get_agent_secret, verify_agent,
}
use sysible_controller.Enroll.Token.{
  Token, is_valid, authorizes, claim, enroll_token_environment, enroll_token_authorizes_rebind,
  validate_enroll_token, resolve_enroll_token_host, consume_enroll_token,
}
use sysible_controller.Enroll.Handler.{
  Request, State, Settings, Times, Reply, host_taken, enrolled, inherit, set_agent_environment,
  enter_environment, place, list_agents, latest, later_seen, find_supersedable_agent, prove,
  save_agent, enroll_admitted, enroll_existing, adopt, enroll,
}
use sysible_controller.Enroll.Takeover.{may_rebind, enroll_takes_proof}
use sysible_controller.Enroll.Admission.{enroll-verify_agent}
use sysible_controller.Enroll.Rate.{IsBounded, enroll_rate_limited, rate_limited-IsBounded}
use sysible_controller.Enroll.SingleUse.{Use, mints, consumes, purges, use_tokens, claimed_once}

-- in place of SHA-256
abbrev hashed : String → String
hashed s = "#" ++ s

abbrev plain : String → String
plain s = s

abbrev defaults : Settings
defaults = record {
  limits = record { valid_days = 30; reuse_window = 86400 };
  live_grace = 300;
  require_rebind_auth = true;
  host_limit = some 5;
}

abbrev at_noon : Times
at_noon = record {
  validated = 5000;
  reused = 5000;
  searched = 5000;
  authorized = 5000;
  refused = 5000;
  consumed = 5000;
  saved = 5001;
}

-- one host, offline since long, with a fresh token for any new host and a reissue token for this one
abbrev fresh_token : Token
fresh_token = record {
  created = 4000;
  expires = 2596000;
  used = false;
  environment = some "prod";
  bound_host_id = none;
  last_used = none;
  reissue = false;
}

abbrev reissue_token : Token
reissue_token = record fresh_token {
  environment = none;
  bound_host_id = some "web1";
  reissue = true;
}

abbrev web1 : Agent
web1 = record blank {
  hostname = some "web1.example.org";
  ip = some "10.0.0.7";
  last_seen = some 100;
  agent_secret = some "#s1";
}

abbrev before : State
before = record {
  agents = ("web1", web1) ∷ [];
  tokens = ("#t1", fresh_token) ∷ ("#r1", reissue_token) ∷ [];
  environments = ("prod", true) ∷ [];
  integrity = [];
}

abbrev asks : String → String → Option String → Request
asks token host_id secret = record {
  token = token;
  host_id = host_id;
  hostname = some "web1.example.org";
  platform = none;
  kernel = none;
  ip = some "10.0.0.7";
  prev_agent_secret = secret;
}

-- a request at noon, with all that it calls open
enroll_at_noon : Request → Reply × State
unfolding enroll adopt enroll_existing enroll_admitted prove save_agent enter_environment
    set_agent_environment inherit find_supersedable_agent list_agents place latest later_seen
    is_valid authorizes claim enroll_token_environment enroll_token_authorizes_rebind
    validate_enroll_token resolve_enroll_token_host consume_enroll_token create_or_update_agent
    update_agent matches_stored agent_secret_matches get_agent_secret rebaseline lookup insert
enroll_at_noon req = enroll plain hashed defaults at_noon "s2" req before

-- A fresh token does not take the host over, by its id or by its address; with the host's secret, or
-- the reissue token, it does.
takeovers :
    ((enroll_at_noon (asks "t1" "web1" none)).0 ≡ host_taken)
    × ((enroll_at_noon (asks "t1" "web9" none)).0 ≡ host_taken)
    × ((enroll_at_noon (asks "t1" "web1" (some "s1"))).0 ≡ enrolled "web1" "s2")
    × ((enroll_at_noon (asks "r1" "web9" none)).0 ≡ enrolled "web1" "s2")
unfolding enroll_at_noon
takeovers = (refl, refl, refl, refl)

enroll_takes_proof_example :
    (web1.revoked ≡ false)
    × (may_rebind plain hashed defaults at_noon "s2" (asks "r1" "web9" none) "web1" before ≡ true)
unfolding enroll_at_noon
enroll_takes_proof_example =
    enroll_takes_proof plain hashed defaults at_noon "s2" (asks "r1" "web9" none) "web1" web1 before
      (refl, tt) refl refl refl

enroll-verify_agent_example :
    (verify_agent hashed "web1" "s2" (enroll_at_noon (asks "r1" "web9" none)).1.agents).0 ≡ none
unfolding enroll_at_noon
enroll-verify_agent_example =
    enroll-verify_agent plain hashed defaults at_noon "s2" (asks "r1" "web9" none) "web1" before
      refl refl refl

abbrev uses : List Use
uses = mints "t2" "dev" 5002 ∷ consumes "t1" "db1" 5003 ∷ consumes "t2" "db1" 5004 ∷ purges ∷ []

claimed_once_example :
    let tokens =
      use_tokens hashed defaults.limits uses
        (consume_enroll_token hashed defaults.limits "t1" "web9" 5000 before.tokens).1 in
    consume_enroll_token hashed defaults.limits "t1" "db1" 6000 tokens ≡ (false, tokens)
unfolding enroll_at_noon
claimed_once_example =
    claimed_once hashed defaults.limits "t1" "web9" "db1" 5000 6000 uses before.tokens
      (refl, (refl, tt)) refl (refl, (refl, (refl, (refl, tt)))) refl

-- a second request of a source in a minute that allows one
rate_limited-IsBounded_example :
    IsBounded 1 (enroll_rate_limited 1 60 "10.0.0.9" 102 (("10.0.0.9", 100 ∷ []) ∷ [])).1
rate_limited-IsBounded_example =
    rate_limited-IsBounded 1 60 "10.0.0.9" 102 (("10.0.0.9", 100 ∷ []) ∷ []) (omega arith, tt)
