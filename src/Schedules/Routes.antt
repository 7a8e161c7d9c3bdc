-- ===== src/Schedules/Routes.antt =====
-- The routes on `/api/schedules` of webgui/server.py that change the jobs. `require_operator` has let the session in.
use sysible_controller.Prelude.{
  ℕ, String, Bool, true, false, not, ◌&&◌, ◌||◌, Option, none, some, List, [], ◌∷◌, any, ◌==◌,
  if◌then◌else◌,
}
use sysible_controller.Schedules.Store.{
  Job, Fields, Zones, get_job, delete_job, create_job, update_job, record_run,
}

-- _FREEFORM_SCHED_ACTIONS
abbrev pub is_freeform : String → Bool
is_freeform action = action == "run_command" || action == "restart_service"

-- `_guard_freeform_schedule` raises
unfoldable pub guard_freeform_schedule : String → List String → Bool
guard_freeform_schedule role actions = any is_freeform actions && not (role == "superuser")

abbrev pub action_of : Option Job → String
action_of none = ""
action_of (some j) = j.action

pub data Reply : Type 0 where
  -- HTTPException
  raised : ℕ → Reply
  -- the route returns
  returned : Reply

abbrev pub created : List Job → Option (List Job) → Reply × List Job
created jobs none = (raised 400, jobs)
created jobs (some jobs') = (returned, jobs')

abbrev pub updated : List Job → Option (Bool × List Job) → Reply × List Job
updated jobs none = (raised 400, jobs)
updated jobs (some (false, jobs')) = (raised 404, jobs')
updated jobs (some (true, jobs')) = (returned, jobs')

abbrev pub deleted : Bool × List Job → Reply × List Job
deleted (false, jobs) = (raised 404, jobs)
deleted (true, jobs) = (returned, jobs)

unfoldable pub schedules_delete : String → List Job → Reply × List Job
unfolding delete_job
schedules_delete job_id jobs = deleted (delete_job job_id jobs)

-- what a request asks; the id of a new job is `uuid4().hex[:12]`, and a run is what `_run_scheduled_job` answers
pub data Use : Type 0 where
  create : String → ℕ → String → Fields → Use
  update : String → ℕ → Fields → Use
  delete : String → Use
  run_now : String → ℕ → String → String → Use

module _ (strip cut : String → String) (split : String → List String) (int : String → Option ℕ)
    (zones : Zones) where
  unfoldable pub schedules_create :
      String → String → ℕ → String → Fields → List Job → Reply × List Job
  unfolding create_job guard_freeform_schedule
  schedules_create role id now user body jobs =
      if guard_freeform_schedule role (body.action ∷ [])
      then (raised 403, jobs)
      else created jobs (create_job strip cut split int zones id now user body jobs)

  unfoldable pub schedules_update : String → String → ℕ → Fields → List Job → Reply × List Job
  unfolding update_job guard_freeform_schedule
  schedules_update role job_id now body jobs =
      if guard_freeform_schedule role (body.action ∷ action_of (get_job job_id jobs) ∷ [])
      then (raised 403, jobs)
      else updated jobs (update_job strip cut split int zones job_id now body jobs)

  abbrev pub run_job :
      String → String → ℕ → String → String → Option Job → List Job → Reply × List Job
  run_job role job_id now status detail none jobs = (raised 404, jobs)
  run_job role job_id now status detail (some j) jobs =
      if guard_freeform_schedule role (j.action ∷ [])
      then (raised 403, jobs)
      else (returned, record_run strip cut split int zones job_id now status detail jobs)

  unfoldable pub schedules_run_now :
      String → String → ℕ → String → String → List Job → Reply × List Job
  unfolding record_run guard_freeform_schedule
  schedules_run_now role job_id now status detail jobs =
      run_job role job_id now status detail (get_job job_id jobs) jobs

  -- a request of a session with the role
  unfoldable pub serve : String → Use → List Job → Reply × List Job
  unfolding schedules_create schedules_update schedules_delete schedules_run_now
  serve role (create id now user body) jobs = schedules_create role id now user body jobs
  serve role (update job_id now body) jobs = schedules_update role job_id now body jobs
  serve role (delete job_id) jobs = schedules_delete job_id jobs
  serve role (run_now job_id now status detail) jobs =
      schedules_run_now role job_id now status detail jobs

  -- requests one after the other, each of a session with its role
  unfoldable pub use_all : List (String × Use) → List Job → List Job
  unfolding serve
  use_all [] jobs = jobs
  use_all ((role, u) ∷ us) jobs = use_all us (serve role u jobs).1
