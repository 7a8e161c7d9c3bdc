-- ===== src/Schedules/Store.antt =====
-- The jobs of webgui/schedules.py, in the order of the file. The lock makes each operation one step.
use sysible_controller.Prelude.{
  ℕ, ◌-◌, String, Bool, true, false, not, ◌&&◌, ◌||◌, Option, none, some, List, [], ◌∷◌, ◌++◌,
  length, drop, select, nat_eq, is_some, Dict, lookup, contains_key, ◌==◌, if◌then◌else◌,
}
use sysible_controller.Schedules.Clock.{parse_hhmm, next_wall, next_fold}

pub record Run : Type 0 where
  pub ts : ℕ
  pub status : String
  pub detail : String

pub record Job : Type 0 where
  pub id : String
  pub name : String
  pub action : String
  pub arg : String
  pub targets : List String
  pub cadence : String
  pub at : String
  pub weekday : ℕ
  pub tz : String
  pub enabled : Bool
  pub created_by : String
  pub created_ts : ℕ
  pub last_run : Option ℕ
  pub last_status : Option String
  pub last_detail : String
  pub next_run : Option ℕ
  pub history : List Run

-- ACTIONS, and ARG_ACTIONS
abbrev pub actions : Dict String
actions =
    ("patch_scan", "Rescan patch status (live)")
    ∷ ("posture_scan", "Rescan compliance posture")
    ∷ ("security_updates", "Install security updates")
    ∷ ("all_updates", "Install all updates")
    ∷ ("clean_pkg_cache", "Clean package cache")
    ∷ ("vacuum_journal", "Vacuum journal logs (7 days)")
    ∷ ("fstrim", "Trim filesystems (fstrim)")
    ∷ ("clear_failed_units", "Clear failed units")
    ∷ ("sync_time", "Sync clock now")
    ∷ ("restart_service", "Restart a service")
    ∷ ("run_command", "Run a shell command")
    ∷ ("reboot", "Reboot")
    ∷ []

abbrev pub needs_arg : String → Bool
needs_arg action = action == "restart_service" || action == "run_command"

abbrev pub is_cadence : String → Bool
is_cadence c = c == "hourly" || c == "daily" || c == "weekly"

-- `text or default`
abbrev pub given_or : String → String → String
given_or default text = if text == "" then default else text

abbrev pub label_of : Option String → String
label_of none = ""
label_of (some label) = label

-- what the datetime library gives: the clock of a zone at an instant and its fold, which is true in the second pass of
-- a repeated hour, and the instant of a fold and a time on that clock
pub record Zones : Type 0 where
  pub wall : String → ℕ → ℕ
  pub fold : String → ℕ → Bool
  pub instant : String → Bool → ℕ → ℕ

-- `hist[-15:]`
abbrev pub last_fifteen : List Run → List Run
last_fifteen hist = drop (length hist - 15) hist

-- the fields that a request changes; all of them are given
pub record Fields : Type 0 where
  pub name : String
  pub action : String
  pub arg : String
  pub targets : List String
  pub cadence : String
  pub at : String
  pub weekday : ℕ
  pub enabled : Bool
  pub tz : String

abbrev pub with_fields : Fields → Job → Job
with_fields f j = record j {
  name = f.name;
  action = f.action;
  arg = f.arg;
  targets = f.targets;
  cadence = f.cadence;
  at = f.at;
  weekday = f.weekday;
  enabled = f.enabled;
  tz = f.tz;
}

abbrev pub is_job : String → Job → Bool
is_job job_id j = j.id == job_id

-- `next((j for j in _load() if j.get("id") == job_id), None)`
unfoldable pub get_job : String → List Job → Option Job
get_job job_id [] = none
get_job job_id (j ∷ jobs) = if j.id == job_id then some j else get_job job_id jobs

-- the first job of the id, changed in place
unfoldable pub set_job : String → (Job → Job) → List Job → List Job
set_job job_id f [] = []
set_job job_id f (j ∷ jobs) =
    let rest = set_job job_id f jobs in if j.id == job_id then f j ∷ jobs else j ∷ rest

unfoldable pub delete_job : String → List Job → Bool × List Job
delete_job job_id jobs =
    let new = select (λ (j : Job). not (j.id == job_id)) jobs in
    (not (nat_eq (length new) (length jobs)), new)

-- `strip` is `str.strip`, `cut` the first 500 characters, `split` and `int` are those of the clock
module _ (strip cut : String → String) (split : String → List String) (int : String → Option ℕ)
    (zones : Zones) where
  unfoldable pub compute_next_run : Job → ℕ → ℕ
  unfolding next_wall next_fold
  compute_next_run j from_ts =
      let now = zones.wall j.tz from_ts in
      let at = parse_hhmm split int j.at in
      zones.instant j.tz (next_fold j.cadence at now (zones.fold j.tz from_ts))
        (next_wall j.cadence j.weekday at now)

  abbrev pub reschedule : ℕ → Job → Job
  reschedule now j = record j { next_run = some (compute_next_run j now) }

  -- false is the ValueError
  unfoldable pub validate : String → String → String → Bool
  validate action cadence arg =
      contains_key action actions && is_cadence cadence && not (needs_arg action && strip arg == "")

  -- `none` is the ValueError; `id` is `uuid4().hex[:12]`
  unfoldable pub create_job : String → ℕ → String → Fields → List Job → Option (List Job)
  unfolding compute_next_run validate
  create_job id now created_by f jobs =
      if not (validate f.action f.cadence f.arg)
      then none
      else some (
          jobs
          ++ reschedule now (record {
            id = id;
            name = strip (given_or (label_of (lookup f.action actions)) f.name);
            action = f.action;
            arg = strip f.arg;
            targets = f.targets;
            cadence = f.cadence;
            at = given_or "02:00" f.at;
            weekday = f.weekday;
            tz = strip f.tz;
            enabled = true;
            created_by = created_by;
            created_ts = now;
            last_run = none;
            last_status = none;
            last_detail = "";
            next_run = none;
            history = [];
          })
            ∷ [])

  -- from the loop's job on; `none` is the ValueError, before the save
  abbrev pub update_found : String → ℕ → Fields → Option Job → List Job → Option (Bool × List Job)
  update_found job_id now f none jobs = some (false, jobs)
  update_found job_id now f (some j) jobs =
      if validate f.action f.cadence f.arg
      then some (true, set_job job_id (λ j. reschedule now (with_fields f j)) jobs)
      else none

  unfoldable pub update_job : String → ℕ → Fields → List Job → Option (Bool × List Job)
  unfolding set_job compute_next_run validate
  update_job job_id now f jobs = update_found job_id now f (get_job job_id jobs) jobs

  abbrev pub ran : ℕ → String → String → Job → Job
  ran now status detail j = reschedule now (record j {
    last_run = some now;
    last_status = some status;
    last_detail = cut detail;
    history =
        last_fifteen (j.history ++ record { ts = now; status = status; detail = cut detail } ∷ []);
  })

  unfoldable pub record_run : String → ℕ → String → String → List Job → List Job
  unfolding set_job compute_next_run
  record_run job_id now status detail jobs = set_job job_id (ran now status detail) jobs

  -- `saves` is whether the file can be written; false also where the job is gone
  unfoldable pub advance_next_run : Bool → String → ℕ → List Job → Bool × List Job
  unfolding set_job compute_next_run
  advance_next_run saves job_id now jobs =
      if is_some (get_job job_id jobs) && saves
      then (true, set_job job_id (reschedule now) jobs)
      else (false, jobs)
