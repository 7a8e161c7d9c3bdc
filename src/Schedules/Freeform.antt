-- ===== src/Schedules/Freeform.antt =====
-- The free-form jobs, which run as root, under requests of sessions that are no superuser's.
use sysible_controller.Prelude.{
  ℕ, ◌≡◌, refl, sym, ◌∙◌, ap, String, Bool, true, false, not, Option, none, some, List, [], ◌∷◌,
  select, select-append, append-nil, any, member, ◌==◌, arith, Bool-cases, inl, inr, all, both_true,
  subst,
}
use sysible_controller.Schedules.Store.{
  Job, Fields, Zones, get_job, set_job, delete_job, create_job, update_found, update_job,
  record_run, validate,
}
use sysible_controller.Schedules.Routes.{
  is_freeform, guard_freeform_schedule, action_of, Reply, Use, updated, deleted, schedules_create,
  schedules_update, schedules_delete, schedules_run_now, run_job, serve, use_all,
}

abbrev pub is_freeform_job : Job → Bool
is_freeform_job j = is_freeform j.action

-- the jobs that the requests delete
abbrev pub deletes : List (String × Use) → List String
deletes [] = []
deletes ((role, Use.delete job_id) ∷ us) = job_id ∷ deletes us
deletes ((role, u) ∷ us) = deletes us

abbrev pub no_superuser : List (String × Use) → Bool
no_superuser us = all (λ (u : String × Use). not (u.0 == "superuser")) us

abbrev pub is_kept : List String → Job → Bool
is_kept ids j = not (member j.id ids)

free-set :
    (b : String) (f : Job → Job) (jobs : List Job)
    → is_freeform (action_of (get_job b jobs)) ≡ false
    → ((k : Job) → get_job b jobs ≡ some k → is_freeform_job (f k) ≡ false)
    → select is_freeform_job (set_job b f jobs) ≡ select is_freeform_job jobs
unfolding get_job set_job
free-set b f [] = λ h g. refl
free-set b f (j ∷ jobs) = elim (Bool-cases (j.id == b)) [
  | inl here ↦ rw here λ h g. let new = g j refl in rw (new, h) refl
  | inr there ↦ rw there λ h g. let ih = free-set b f jobs h g in rw ih refl
]

select-select :
    (ids : List String) (d : String) (jobs : List Job)
    → select (is_kept ids) (select (λ (j : Job). not (j.id == d)) jobs)
      ≡ select (is_kept (d ∷ ids)) jobs
select-select ids d [] = refl
select-select ids d (j ∷ jobs) =
    let ih = select-select ids d jobs in
    elim (Bool-cases (j.id == d)) [ inl e ↦ rw (e, ih) refl | inr e ↦ rw (e, ih) refl ]

select-swap :
    (d : String) (jobs : List Job)
    → select is_freeform_job (select (λ (j : Job). not (j.id == d)) jobs)
      ≡ select (λ (j : Job). not (j.id == d)) (select is_freeform_job jobs)
select-swap d [] = refl
select-swap d (j ∷ jobs) = ground (arith, select-swap d jobs)

module _ (strip cut : String → String) (split : String → List String) (int : String → Option ℕ)
    (zones : Zones) (role : String) (plain : (role == "superuser") ≡ false) where
  -- the free-form jobs are those of before
  abbrev IsFree : List Job → Reply × List Job → Type 0
  IsFree jobs r = select is_freeform_job r.1 ≡ select is_freeform_job jobs

  open_to :
      (actions : List String)
      → guard_freeform_schedule role actions ≡ false
      → any is_freeform actions ≡ false
  unfolding guard_freeform_schedule
  open_to actions h = ground (arith, h, plain)

  create-IsFree :
      (id : String) (now : ℕ) (user : String) (f : Fields) (jobs : List Job)
      → IsFree jobs (schedules_create strip cut split int zones role id now user f jobs)
  unfolding schedules_create create_job
  create-IsFree id now user f jobs =
      elim (Bool-cases (guard_freeform_schedule role (f.action ∷ []))) [
        | inl e ↦ rw e refl
        | inr e ↦
            rw e (elim (Bool-cases (validate strip cut split int zones f.action f.cadence f.arg)) [
              | inr bad ↦ rw bad refl
              | inl good ↦
                  let other = open_to (f.action ∷ []) e in
                  let tame : is_freeform f.action ≡ false = ground (arith, other) in
                  rw (good, select-append is_freeform_job jobs, tame)
                    (append-nil (select is_freeform_job jobs))
            ])
      ]

  update-IsFree :
      (o : Option Job) (job_id : String) (now : ℕ) (f : Fields) (jobs : List Job)
      → get_job job_id jobs ≡ o
      → IsFree jobs (schedules_update strip cut split int zones role job_id now f jobs)
  unfolding schedules_update update_job
  update-IsFree o job_id now f jobs at =
      elim (Bool-cases (guard_freeform_schedule role (f.action ∷ action_of o ∷ []))) [
        | inl e ↦ rw (at, e) refl
        | inr e ↦ rw (at, e) (found o at (open_to (f.action ∷ action_of o ∷ []) e))
      ]
    where
      found :
          (o : Option Job)
          → get_job job_id jobs ≡ o
          → any is_freeform (f.action ∷ action_of o ∷ []) ≡ false
          → IsFree jobs (updated jobs (update_found strip cut split int zones job_id now f o jobs))
      found none at open_ = refl
      found (some j) at open_ =
          elim (Bool-cases (validate strip cut split int zones f.action f.cadence f.arg)) [
            | inr bad ↦ rw bad refl
            | inl good ↦
                let new : is_freeform f.action ≡ false = ground (arith, open_) in
                let old : is_freeform j.action ≡ false = ground (arith, open_) in
                rw good (free-set job_id _ jobs (rw at old) (λ k e. new))
          ]

  run-IsFree :
      (o : Option Job) (job_id : String) (now : ℕ) (status detail : String) (jobs : List Job)
      → get_job job_id jobs ≡ o
      → IsFree jobs (run_job strip cut split int zones role job_id now status detail o jobs)
  unfolding record_run
  run-IsFree none job_id now status detail jobs at = refl
  run-IsFree (some j) job_id now status detail jobs at =
      elim (Bool-cases (guard_freeform_schedule role (j.action ∷ []))) [
        | inl e ↦ rw e refl
        | inr e ↦
            let other = open_to (j.action ∷ []) e in
            let old : is_freeform j.action ≡ false = ground (arith, other) in
            rw e (
              free-set job_id _ jobs (rw at old) (λ k same.
                let is : j ≡ k = cc (at, same) in
                subst (λ (i : Job). is_freeform i.action ≡ false) is old))
      ]

deleted_jobs : (r : Bool × List Job) → (deleted r).1 ≡ r.1
deleted_jobs (false, jobs) = refl
deleted_jobs (true, jobs) = refl

delete_free :
    (job_id : String) (jobs : List Job)
    → select is_freeform_job (schedules_delete job_id jobs).1
      ≡ select (λ (j : Job). not (j.id == job_id)) (select is_freeform_job jobs)
unfolding schedules_delete delete_job
delete_free job_id jobs = rw (deleted_jobs (delete_job job_id jobs)) (select-swap job_id jobs)

select_kept : (jobs : List Job) → select (is_kept []) jobs ≡ jobs
select_kept [] = refl
select_kept (j ∷ jobs) = rw (select_kept jobs) refl

module _ (strip cut : String → String) (split : String → List String) (int : String → Option ℕ)
    (zones : Zones) where
  -- Only a superuser can bring a free-form job about, or change or run one: after any requests of other sessions, with the
  -- fields and the outcomes of runs that they please, the free-form jobs are those of before, as
  -- they were and in their order, less the deleted ones.
  pub use_all-freeform :
      (us : List (String × Use)) (jobs : List Job)
      → no_superuser us ≡ true
      → select is_freeform_job (use_all strip cut split int zones us jobs)
        ≡ select (is_kept (deletes us)) (select is_freeform_job jobs)
  unfolding use_all serve schedules_run_now
  use_all-freeform [] jobs h = sym (select_kept (select is_freeform_job jobs))
  use_all-freeform ((role, Use.create id now user f) ∷ us) jobs h =
      let (other, rest) = both_true (not (role == "superuser")) _ h in
      let plain : (role == "superuser") ≡ false = ground (arith, other) in
      use_all-freeform us (schedules_create strip cut split int zones role id now user f jobs).1
        rest
      ∙ ap (select (is_kept (deletes us)))
          (create-IsFree strip cut split int zones role plain id now user f jobs)
  use_all-freeform ((role, Use.update job_id now f) ∷ us) jobs h =
      let (other, rest) = both_true (not (role == "superuser")) _ h in
      let plain : (role == "superuser") ≡ false = ground (arith, other) in
      use_all-freeform us (schedules_update strip cut split int zones role job_id now f jobs).1 rest
      ∙ ap (select (is_kept (deletes us))) (
          update-IsFree strip cut split int zones role plain (get_job job_id jobs) job_id now f jobs
            refl)
  use_all-freeform ((role, Use.delete job_id) ∷ us) jobs h =
      let (other, rest) = both_true (not (role == "superuser")) _ h in
      use_all-freeform us (schedules_delete job_id jobs).1 rest
      ∙ ap (select (is_kept (deletes us))) (delete_free job_id jobs)
      ∙ select-select (deletes us) job_id (select is_freeform_job jobs)
  use_all-freeform ((role, Use.run_now job_id now status detail) ∷ us) jobs h =
      let (other, rest) = both_true (not (role == "superuser")) _ h in
      let plain : (role == "superuser") ≡ false = ground (arith, other) in
      use_all-freeform us
        (schedules_run_now strip cut split int zones role job_id now status detail jobs).1 rest
      ∙ ap (select (is_kept (deletes us))) (run_now-IsFree role plain job_id now status detail jobs)
    where
      run_now-IsFree :
          (role : String)
          → (role == "superuser") ≡ false
          → (job_id : String) (now : ℕ) (status detail : String) (jobs : List Job)
          → select is_freeform_job
              (schedules_run_now strip cut split int zones role job_id now status detail jobs).1
            ≡ select is_freeform_job jobs
      run_now-IsFree role plain job_id now status detail jobs =
          run-IsFree strip cut split int zones role plain (get_job job_id jobs) job_id now status
            detail jobs refl
