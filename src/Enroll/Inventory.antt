-- ===== src/Enroll/Inventory.antt =====
-- The inventory of backend/db.py, table `agents`, and `verify_agent` of backend/app.py.
use sysible_controller.Prelude.{
  ℕ, codes, length, all, leb, nat_eq, ◌||◌, String, Bool, true, false, not, ◌&&◌, Option, none,
  some, [], ◌∷◌, Dict, lookup, insert, contains_key, ◌==◌, if◌then◌else◌,
}

pub record Agent : Type 0 where
  pub hostname : Option String
  pub platform : Option String
  pub kernel : Option String
  pub status : String
  pub last_seen : Option ℕ
  pub environment : Option String
  pub ip : Option String
  pub agent_secret : Option String
  pub requires_sudo_password : Bool
  pub agent_version : Option String
  pub revoked : Bool

-- the columns that an INSERT leaves to their defaults
abbrev pub blank : Agent
blank = record {
  hostname = none;
  platform = none;
  kernel = none;
  status = "";
  last_seen = none;
  environment = none;
  ip = none;
  agent_secret = none;
  requires_sudo_password = false;
  agent_version = none;
  revoked = false;
}

abbrev pub row_or_blank : Option Agent → Agent
row_or_blank none = blank
row_or_blank (some row) = row

-- Python's truth value of an optional text
abbrev pub is_given : Option String → Bool
is_given none = false
is_given (some s) = not (s == "")

-- `UPDATE agents SET ... WHERE host_id=?`
unfoldable pub update_agent : (Agent → Agent) → String → Dict Agent → Dict Agent
update_agent f host_id [] = []
update_agent f host_id ((id, row) ∷ rows) =
    let rest = update_agent f host_id rows in
    if host_id == id then (id, f row) ∷ rest else (id, row) ∷ rest

-- `row[0] if row else None`, and `bool(row and row[0])`
abbrev pub secret_of : Option Agent → Option String
secret_of none = none
secret_of (some row) = row.agent_secret

abbrev pub revoked_of : Option Agent → Bool
revoked_of none = false
revoked_of (some row) = row.revoked

unfoldable pub get_agent_secret : String → Dict Agent → Option String
get_agent_secret host_id agents = secret_of (lookup host_id agents)

abbrev pub revoke_agent : String → Dict Agent → Bool × Dict Agent
revoke_agent host_id agents = (
  contains_key host_id agents,
  update_agent (λ row. record row { revoked = true }) host_id agents,
)

abbrev pub unrevoke_agent : String → Dict Agent → Bool × Dict Agent
unrevoke_agent host_id agents = (
  contains_key host_id agents,
  update_agent (λ row. record row { revoked = false }) host_id agents,
)

unfoldable pub is_agent_revoked : String → Dict Agent → Bool
is_agent_revoked host_id agents = revoked_of (lookup host_id agents)

abbrev pub agent_exists : String → Dict Agent → Bool
agent_exists host_id agents = contains_key host_id agents

abbrev pub is_hex_digit : ℕ → Bool
is_hex_digit c = (leb 48 c && leb c 57) || (leb 97 c && leb c 102)

-- `_is_hash_at_rest`: 64 characters, all of "0123456789abcdef"
unfoldable pub is_hash_at_rest : String → Bool
is_hash_at_rest value = nat_eq (length (codes value)) 64 && all is_hex_digit (codes value)

-- What `verify_agent` raises.
pub data Denial : Type 0 where
  unknown_host secret_revoked invalid_secret : Denial

-- `digest` is `hashlib.sha256(...).hexdigest()`.
module _ (digest : String → String) where
  -- `_token_at_rest(agent_secret) if agent_secret else agent_secret`
  abbrev pub secret_at_rest : Option String → Option String
  secret_at_rest none = none
  secret_at_rest (some s) = some (if s == "" then s else digest s)

  unfoldable pub create_or_update_agent :
      String
      → Option String
      → Option String
      → Option String
      → String
      → ℕ
      → Option String
      → Option String
      → Dict Agent
      → Dict Agent
  create_or_update_agent host_id hostname platform kernel status last_seen agent_secret ip agents =
      insert host_id
        (record (row_or_blank (lookup host_id agents)) {
          hostname = hostname;
          platform = platform;
          kernel = kernel;
          status = status;
          last_seen = some last_seen;
          agent_secret = secret_at_rest agent_secret;
          ip = ip;
          revoked = false;
        })
        agents

  -- whether a presented secret stands against a stored one: by its hash, or, where the row holds a
  -- plain secret still, by itself
  abbrev pub matches_hash : String → String → Bool
  matches_hash presented stored = digest presented == stored

  abbrev pub matches_plain : String → String → Bool
  matches_plain presented stored = not (is_hash_at_rest stored) && presented == stored

  -- the stored secret, the empty one left out
  unfoldable pub matches_stored : String → String → Option String → Dict Agent → Bool × Dict Agent
  unfolding update_agent
  matches_stored host_id presented none agents = (false, agents)
  matches_stored host_id presented (some stored) agents =
      if stored == ""
      then (false, agents)
      else if matches_hash presented stored
      then (true, agents)
      else if matches_plain presented stored
      then (
        true,
        update_agent (λ row. record row { agent_secret = some (digest presented) }) host_id agents,
      )
      else (false, agents)

  -- a plain row that matches is stored again as its hash
  unfoldable pub agent_secret_matches : String → String → Dict Agent → Bool × Dict Agent
  unfolding matches_stored get_agent_secret
  agent_secret_matches host_id presented agents =
      if presented == ""
      then (false, agents)
      else matches_stored host_id presented (get_agent_secret host_id agents) agents

  -- `none` where it returns
  unfoldable pub verify_agent : String → String → Dict Agent → Option Denial × Dict Agent
  unfolding agent_secret_matches is_agent_revoked
  verify_agent host_id agent_secret agents =
      if not (agent_exists host_id agents)
      then (some unknown_host, agents)
      else if is_agent_revoked host_id agents
      then (some secret_revoked, agents)
      else let (matches, agents') = agent_secret_matches host_id agent_secret agents in
        (if matches then none else some invalid_secret, agents')
