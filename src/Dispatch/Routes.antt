-- ===== src/Dispatch/Routes.antt =====
-- `poll_agent_tasks`, `post_task_result`, `_take_become`, `_take_want_root`.
use sysible_controller.Prelude.{
  ◌+◌, ltb, select, ℕ, String, Bool, false, not, ◌&&◌, Option, none, some, List, [], ◌∷◌, Dict,
  nat_eq, ◌==◌, if◌then◌else◌, is_some,
}
use sysible_controller.Enroll.Inventory.{Agent, Denial, verify_agent}
use sysible_controller.Tasks.Queue.{
  Tables, Claim, fetch_pending_tasks, submit_task_result, get_task_host, get_task_kind,
}
use sysible_controller.Integrity.State.{Host, is_quarantined}

pub record Become : Type 0 where
  pub password : String
  pub expiry : ℕ

-- the tables, the state file, and the two dictionaries in memory, from a task's id to the password
-- that is held for it, and to an expiry
pub record Site : Type 0 where
  pub agents : Dict Agent
  pub tables : Tables
  pub integrity : Dict Host
  pub become : List (ℕ × Become)
  pub want_root : List (ℕ × ℕ)

-- `d.pop(key, None)`
unfoldable pub pop {ℓ} : {A : Type ℓ} → ℕ → List (ℕ × A) → Option A × List (ℕ × A)
pop key [] = (none, [])
pop key ((k, v) ∷ rows) =
    let (found, rest) = pop key rows in
    if nat_eq k key then (some v, rest) else (found, (k, v) ∷ rest)

abbrev pub password_of : Option Become → Option String
password_of none = none
password_of (some rec) = some rec.password

unfoldable pub take_become : ℕ → Site → Option String × Site
unfolding pop
take_become task_id s =
    let (rec, become) = pop task_id s.become in (password_of rec, record s { become = become })

unfoldable pub take_want_root : ℕ → Site → Bool × Site
unfolding pop
take_want_root task_id s =
    let (rec, want_root) = pop task_id s.want_root in
    (is_some rec, record s { want_root = want_root })

-- `d[key] = value`
unfoldable pub put {ℓ} : {A : Type ℓ} → ℕ → A → List (ℕ × A) → List (ℕ × A)
put key value [] = (key, value) ∷ []
put key value ((k, v) ∷ rows) =
    let rest = put key value rows in if nat_eq k key then (key, value) ∷ rows else (k, v) ∷ rest

abbrev pub sweep_become : ℕ → Site → Site
sweep_become now s = record s {
  become = select (λ (row : ℕ × Become). not (ltb row.1.expiry now)) s.become;
}

-- `ttl` is _BECOME_TTL_S; `now` is read for the sweep, and `later` for the expiry
unfoldable pub store_become : ℕ → ℕ → String → ℕ → ℕ → Site → Site
unfolding put
store_become ttl task_id password now later s =
    let swept = sweep_become now s in
    if password == "" then s else record swept {
      become = put task_id (record { password = password; expiry = later + ttl }) swept.become;
    }

abbrev pub sweep_want_root : ℕ → Site → Site
sweep_want_root now s = record s {
  want_root = select (λ (row : ℕ × ℕ). not (ltb row.1 now)) s.want_root;
}

unfoldable pub store_want_root : ℕ → ℕ → ℕ → ℕ → Site → Site
unfolding put
store_want_root ttl task_id now later s =
    let swept = sweep_want_root now s in
    record swept { want_root = put task_id (later + ttl) swept.want_root }

-- a task as the agent gets it
pub record Handed : Type 0 where
  pub claim : Claim
  pub become_password : Option String
  pub want_root : Bool

-- the loop over the tasks
unfoldable pub attach : List Claim → Site → List Handed × Site
unfolding take_become take_want_root
attach [] s = ([], s)
attach (c ∷ claims) s =
    let (password, s') = take_become c.id s in
    let (root, s'') = take_want_root c.id s' in
    let (handed, s''') = attach claims s'' in
    (record { claim = c; become_password = password; want_root = root } ∷ handed, s''')

pub data Polled : Type 0 where
  denied : Denial → Polled
  locked : Polled
  tasks : List Handed → Polled

pub data Posted : Type 0 where
  mismatch : Posted
  denied : Denial → Posted
  unknown_task : Posted
  recorded ignored : Posted

-- `x_agent_secret or agent_secret`
abbrev pub header_or_query : Option String → String → String
header_or_query none query = query
header_or_query (some header) query = if header == "" then query else header

abbrev pub is_owner : String → Option String → Bool
is_owner host_id none = false
is_owner host_id (some owner) = owner == host_id

abbrev pub is_ssh_enable : Option String → Bool
is_ssh_enable none = false
is_ssh_enable (some kind) = kind == "ssh_enable"

-- `digest` is as in the inventory.
module _ (digest : String → String) where
  -- past `verify_agent`
  unfoldable pub poll_verified : String → ℕ → Site → Polled × Site
  unfolding attach
  poll_verified host_id now s =
      if is_quarantined host_id s.integrity
      then (locked, s)
      else let (claims, tables) = fetch_pending_tasks host_id now s.tables in
        let (handed, s') = attach claims (record s { tables = tables }) in (tasks handed, s')

  unfoldable pub poll_denied : Option Denial → String → ℕ → Site → Polled × Site
  unfolding poll_verified
  poll_denied none host_id now s = poll_verified host_id now s
  poll_denied (some why) host_id now s = (Polled.denied why, s)

  unfoldable pub poll_agent_tasks : String → String → Option String → ℕ → Site → Polled × Site
  unfolding poll_denied
  poll_agent_tasks host_id agent_secret x_agent_secret now s =
      let (why, agents) =
        verify_agent digest host_id (header_or_query x_agent_secret agent_secret) s.agents in
      poll_denied why host_id now (record s { agents = agents })

  -- past `verify_agent`; the Boolean is whether `_consume_ssh_enable_result` is called
  unfoldable pub post_verified : String → ℕ → String → ℕ → Site → Posted × Bool × Site
  post_verified host_id task_id result now s =
      if not (is_owner host_id (get_task_host task_id s.tables))
      then (unknown_task, false, s)
      else let (applied, tables) = submit_task_result task_id host_id result now s.tables in
        (
          if applied then recorded else ignored,
          applied && is_ssh_enable (get_task_kind task_id tables),
          record s { tables = tables },
        )

  unfoldable pub post_denied : Option Denial → String → ℕ → String → ℕ → Site → Posted × Bool × Site
  unfolding post_verified
  post_denied none host_id task_id result now s = post_verified host_id task_id result now s
  post_denied (some why) host_id task_id result now s = (Posted.denied why, false, s)

  unfoldable pub post_task_result :
      String → String → String → ℕ → String → ℕ → Site → Posted × Bool × Site
  unfolding post_denied
  post_task_result host_id body_host_id agent_secret task_id result now s =
      if not (host_id == body_host_id)
      then (mismatch, false, s)
      else let (why, agents) = verify_agent digest body_host_id agent_secret s.agents in
        post_denied why body_host_id task_id result now (record s { agents = agents })
