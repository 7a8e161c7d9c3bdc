-- ===== src/Schedules/Tick.antt =====
-- `due_jobs`, and one pass of `_scheduler_loop`.
use sysible_controller.Prelude.{
  ℕ, String, Bool, true, false, ◌&&◌, Option, none, some, List, [], ◌∷◌, leb, if◌then◌else◌,
}
use sysible_controller.Schedules.Store.{
  Job, Zones, get_job, set_job, validate, reschedule, advance_next_run, record_run,
  compute_next_run,
}

-- what the world answers when a job's turn comes: whether the file can be written before and after the run, the
-- clock at both, and what `_run_scheduled_job` answers, which also stands for an exception in it
pub record Attempt : Type 0 where
  pub can_advance : Bool
  pub advance_at : ℕ
  pub status : String
  pub detail : String
  pub can_record : Bool
  pub record_at : ℕ

-- the jobs that are due, or none for an exception, and the file
abbrev pub Due : Type 0
Due = Option (List Job) × List Job

abbrev pub due_before : Job → Due → Due
due_before j (none, jobs) = (none, jobs)
due_before j (some out, jobs) = (some (j ∷ out), jobs)

module _ (strip cut : String → String) (split : String → List String) (int : String → Option ℕ)
    (zones : Zones) where
  -- `update_job(j["id"], name=j.get("name"))` of a job that has no next run; false is an exception
  abbrev pub touch : Bool → ℕ → Job → Option Job → List Job → Bool × List Job
  touch saves now j none jobs = (true, jobs)
  touch saves now j (some found) jobs =
      if validate strip cut split int zones found.action found.cadence found.arg && saves
      then (
        true,
        set_job j.id (λ k. reschedule strip cut split int zones now (record k { name = j.name }))
            jobs,
      )
      else (false, jobs)

  abbrev pub then_due : (List Job → Due) → Bool × List Job → Due
  then_due rest (false, jobs) = (none, jobs)
  then_due rest (true, jobs) = rest jobs

  abbrev pub take_due : ℕ → Job → Option ℕ → Due → Due → Due
  take_due now j none touched rest = touched
  take_due now j (some next) touched rest = if leb next now then due_before j rest else rest

  -- over the jobs as they were loaded
  unfoldable pub due_jobs : Bool → ℕ → List Job → List Job → Due
  unfolding validate set_job get_job compute_next_run
  due_jobs saves now [] jobs = (some [], jobs)
  due_jobs saves now (j ∷ loaded) jobs =
      let rest = due_jobs saves now loaded in
      if j.enabled
      then take_due now j j.next_run (then_due rest (touch saves now j (get_job j.id jobs) jobs))
          (rest jobs)
      else rest jobs

  -- the run, where the advance is saved, and whether it ran
  abbrev pub run_advanced : Attempt → Job → Bool × List Job → Bool × List Job
  run_advanced a j (false, jobs) = (false, jobs)
  run_advanced a j (true, jobs) = (
    true,
    if a.can_record
        then record_run strip cut split int zones j.id a.record_at a.status a.detail jobs
        else jobs,
  )

  unfoldable pub run_due : Attempt → Job → List Job → Bool × List Job
  unfolding advance_next_run record_run
  run_due a j jobs =
      run_advanced a j
        (advance_next_run strip cut split int zones a.can_advance j.id a.advance_at jobs)

  -- the jobs that ran, and the file
  unfoldable pub run_all : (Job → Attempt) → List Job → List Job → List String × List Job
  unfolding run_due
  run_all world [] jobs = ([], jobs)
  run_all world (j ∷ due) jobs =
      let one = run_due (world j) j jobs in
      let others = run_all world due one.1 in
      (if one.0 then j.id ∷ others.0 else others.0, others.1)

  abbrev pub run_found : (Job → Attempt) → Due → List String × List Job
  run_found world (none, jobs) = ([], jobs)
  run_found world (some due, jobs) = run_all world due jobs

  -- one pass of the loop; where `due_jobs` raises, nothing runs
  unfoldable pub scheduler_pass : Bool → ℕ → (Job → Attempt) → List Job → List String × List Job
  unfolding due_jobs run_all
  scheduler_pass saves now world jobs = run_found world (due_jobs saves now jobs jobs)
