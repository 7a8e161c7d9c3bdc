-- ===== src/Schedules/Fixed.antt =====
-- Jobs in zones of a fixed offset, and that a pass of the scheduler leaves the zones of the jobs as they are.
use sysible_controller.Prelude.{
  ℕ, ◌+◌, ◌≤◌, ◌<◌, ◌≡◌, refl, String, Bool, true, false, ◌&&◌, Option, none, some, List, [], ◌∷◌,
  All, is_some, ◌==◌, arith, Bool-cases, inl, inr, leb, if◌then◌else◌, subst, sym,
}
use sysible_controller.Schedules.Store.{
  Job, Zones, get_job, set_job, reschedule, advance_next_run, record_run, validate,
}
use sysible_controller.Schedules.Tick.{
  Attempt, Due, due_jobs, touch, then_due, take_due, due_before, run_advanced, run_due,
}

-- The clock of the zone is off by the same time at every instant: it is `ahead` of the instants, less `behind`.
abbrev pub IsFixed : Zones → String → Type 0
IsFixed zones tz =
    (ahead : ℕ) × (behind : ℕ) × ((t : ℕ) → zones.wall tz t + behind ≡ t + ahead)
    × ((fold : Bool) (w : ℕ) → ahead ≤ w + behind → zones.instant tz fold w + ahead ≡ w + behind)

-- on such a clock a later time is a later instant
pub later_instant :
    (zones : Zones) (tz : String) (from w : ℕ) (fold : Bool)
    → IsFixed zones tz
    → zones.wall tz from < w
    → from < zones.instant tz fold w
later_instant zones tz from w fold (ahead, behind, to_wall, back) lt =
    let here = to_wall from in
    let reaches : ahead ≤ w + behind = omega (arith, here, lt) in
    omega (arith, here, lt, back fold w reaches)

abbrev pub AllFixed : Zones → List Job → Type 0
AllFixed zones jobs = All (λ (j : Job). IsFixed zones j.tz) jobs

pub set_job-AllFixed :
    (zones : Zones) (job_id : String) (f : Job → Job) (jobs : List Job)
    → ((j : Job) → (f j).tz ≡ j.tz)
    → AllFixed zones jobs
    → AllFixed zones (set_job job_id f jobs)
unfolding set_job
set_job-AllFixed zones job_id f [] keeps h = tt
set_job-AllFixed zones job_id f (j ∷ jobs) keeps h =
    let rest = set_job-AllFixed zones job_id f jobs keeps h.1 in
    elim (Bool-cases (j.id == job_id)) [
      | inl here ↦ rw here (subst (IsFixed zones) (sym (keeps j)) h.0, h.1)
      | inr there ↦ rw there (h.0, rest)
    ]

if-AllFixed :
    {A : Type 0} (zones : Zones) (b : Bool) (x y : A × List Job)
    → AllFixed zones x.1
    → AllFixed zones y.1
    → AllFixed zones (if b then x else y).1
if-AllFixed zones true x y h g = h
if-AllFixed zones false x y h g = g

module _ (strip cut : String → String) (split : String → List String) (int : String → Option ℕ)
    (zones : Zones) where
  touch-AllFixed :
      (saves : Bool) (now : ℕ) (j : Job) (o : Option Job) (jobs : List Job)
      → AllFixed zones jobs
      → AllFixed zones (touch strip cut split int zones saves now j o jobs).1
  touch-AllFixed saves now j none jobs h = h
  touch-AllFixed saves now j (some found) jobs h =
      elim (Bool-cases
        (validate strip cut split int zones found.action found.cadence found.arg && saves)) [
          | inl ok ↦ rw ok (set_job-AllFixed zones j.id _ jobs (λ k. refl) h)
          | inr bad ↦ rw bad h
        ]

  then-AllFixed :
      (rest : List Job → Due) (s : Bool × List Job)
      → ((jobs : List Job) → AllFixed zones jobs → AllFixed zones (rest jobs).1)
      → AllFixed zones s.1
      → AllFixed zones (then_due strip cut split int zones rest s).1
  then-AllFixed rest (false, jobs) ih h = h
  then-AllFixed rest (true, jobs) ih h = ih jobs h

  before-AllFixed : (j : Job) (d : Due) → AllFixed zones d.1 → AllFixed zones (due_before j d).1
  before-AllFixed j (none, jobs) h = h
  before-AllFixed j (some out, jobs) h = h

  take-AllFixed :
      (now : ℕ) (j : Job) (o : Option ℕ) (touched rest : Due)
      → AllFixed zones touched.1
      → AllFixed zones rest.1
      → AllFixed zones (take_due strip cut split int zones now j o touched rest).1
  take-AllFixed now j none touched rest a b = a
  take-AllFixed now j (some next) touched rest a b = elim (Bool-cases (leb next now)) [
    | inl due ↦ rw due (before-AllFixed j rest b)
    | inr later ↦ rw later b
  ]

  pub due_jobs-AllFixed :
      (saves : Bool) (now : ℕ) (loaded jobs : List Job)
      → AllFixed zones jobs
      → AllFixed zones (due_jobs strip cut split int zones saves now loaded jobs).1
  unfolding due_jobs
  due_jobs-AllFixed saves now [] jobs h = h
  due_jobs-AllFixed saves now (j ∷ loaded) jobs h =
      let ih = due_jobs-AllFixed saves now loaded in
      let touched = touch-AllFixed saves now j (get_job j.id jobs) jobs h in
      if-AllFixed zones j.enabled _ _
        (take-AllFixed now j j.next_run _ _ (then-AllFixed _ _ ih touched) (ih jobs h)) (ih jobs h)

  advanced-AllFixed :
      (a : Attempt) (j : Job) (s : Bool × List Job)
      → AllFixed zones s.1
      → AllFixed zones (run_advanced strip cut split int zones a j s).1
  unfolding record_run
  advanced-AllFixed a j (false, jobs) h = h
  advanced-AllFixed a j (true, jobs) h = elim (Bool-cases a.can_record) [
    | inl e ↦ rw e (set_job-AllFixed zones j.id _ jobs (λ k. refl) h)
    | inr e ↦ rw e h
  ]

  pub run_due-AllFixed :
      (a : Attempt) (j : Job) (jobs : List Job)
      → AllFixed zones jobs
      → AllFixed zones (run_due strip cut split int zones a j jobs).1
  unfolding run_due advance_next_run
  run_due-AllFixed a j jobs h = advanced-AllFixed a j _ (
      if-AllFixed zones (is_some (get_job j.id jobs) && a.can_advance) _ _
        (set_job-AllFixed zones j.id (reschedule strip cut split int zones a.advance_at) jobs
          (λ k. refl) h)
        h)
