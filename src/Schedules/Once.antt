-- ===== src/Schedules/Once.antt =====
-- A job that ran is not due again.
use sysible_controller.Prelude.{
  ℕ, ◌≤◌, ◌<◌, ◌≡◌, refl, sym, String, Bool, true, false, not, ◌&&◌, Option, none, some, List, [],
  ◌∷◌, leb, is_some, member, ◌==◌, arith, Bool-cases, inl, inr, eq_iff, both_true, subst,
}
use sysible_controller.Schedules.Least.{next_after}
use sysible_controller.Schedules.Fixed.{
  IsFixed, later_instant, AllFixed, set_job-AllFixed, due_jobs-AllFixed, run_due-AllFixed,
}
use sysible_controller.Schedules.Store.{
  Job, Zones, get_job, set_job, reschedule, ran, advance_next_run, record_run, compute_next_run,
}
use sysible_controller.Schedules.Tick.{
  Attempt, Due, run_advanced, run_due, run_all, run_found, scheduler_pass, due_jobs,
}

abbrev pub next_of : Option Job → Option ℕ
next_of none = none
next_of (some j) = j.next_run

-- the job has a next run, after the instant
abbrev pub is_ahead : ℕ → Option ℕ → Bool
is_ahead now none = false
is_ahead now (some n) = not (leb n now)

-- an update keeps the id and moves the next run on, where the zone of the job has a fixed offset
abbrev Moves : Zones → ℕ → (Job → Job) → Type 0
Moves zones now f =
    (j : Job) → ((f j).id ≡ j.id) × (IsFixed zones j.tz → is_ahead now (f j).next_run ≡ true)

get-set_self :
    (zones : Zones) (now : ℕ) (a : String) (f : Job → Job) (jobs : List Job)
    → Moves zones now f
    → AllFixed zones jobs
    → is_some (get_job a jobs) ≡ true
    → is_ahead now (next_of (get_job a (set_job a f jobs))) ≡ true
unfolding get_job set_job
get-set_self zones now a f [] m fixed = λ h. absurd (cc h)
get-set_self zones now a f (j ∷ jobs) m fixed = elim (Bool-cases (j.id == a)) [
  | inl here ↦
      let same : ((f j).id == a) ≡ true = rw (m j).0 here in rw here λ h. rw same ((m j).1 fixed.0)
  | inr there ↦ rw there λ h. rw there (get-set_self zones now a f jobs m fixed.1 h)
]

get-set_ahead :
    (zones : Zones) (now : ℕ) (a b : String) (f : Job → Job) (jobs : List Job)
    → Moves zones now f
    → AllFixed zones jobs
    → is_ahead now (next_of (get_job a jobs)) ≡ true
    → is_ahead now (next_of (get_job a (set_job b f jobs))) ≡ true
unfolding get_job set_job
get-set_ahead zones now a b f [] m fixed = λ h. absurd (cc h)
get-set_ahead zones now a b f (j ∷ jobs) m fixed =
    let ih = get-set_ahead zones now a b f jobs m fixed.1 in
    elim (Bool-cases (j.id == b)) [
      | inl here ↦ elim (Bool-cases (j.id == a)) [
        | inl is ↦
            let same : ((f j).id == a) ≡ true = rw (m j).0 is in
            rw (here, is) λ h. rw same ((m j).1 fixed.0)
        | inr not_a ↦
            let same : ((f j).id == a) ≡ false = rw (m j).0 not_a in rw (here, not_a) λ h. rw same h
      ]
      | inr there ↦ elim (Bool-cases (j.id == a)) [
        | inl is ↦ rw (there, is) λ h. h
        | inr not_a ↦ rw (there, not_a) ih
      ]
    ]

module _ (strip cut : String → String) (split : String → List String) (int : String → Option ℕ)
    (zones : Zones) where
  reschedule-Moves :
      (now later : ℕ) (f : Job → Job)
      → now ≤ later
      → ((j : Job) → ((f j).id ≡ j.id) × ((f j).tz ≡ j.tz))
      → Moves zones now (λ j. reschedule strip cut split int zones later (f j))
  unfolding compute_next_run
  reschedule-Moves now later f le keeps j =
      let k = f j in
      (
        (keeps j).0,
        λ fixed.
            let after : later < compute_next_run strip cut split int zones k later =
              later_instant zones k.tz later _ _ (subst (IsFixed zones) (sym (keeps j).1) fixed)
                (next_after split int k.cadence k.weekday k.at (zones.wall k.tz later)) in
            ground (arith, le, after),
      )

  ran-Moves :
      (now : ℕ) (a : Attempt)
      → now ≤ a.record_at
      → Moves zones now (ran strip cut split int zones a.record_at a.status a.detail)
  ran-Moves now a le = reschedule-Moves now a.record_at _ le (λ j. (refl, refl))

  recorded_ahead :
      (now : ℕ) (a : Attempt) (j : Job) (id : String) (jobs : List Job)
      → now ≤ a.record_at
      → AllFixed zones jobs
      → is_ahead now (next_of (get_job id jobs)) ≡ true
      → is_ahead now
          (next_of (get_job id (run_advanced strip cut split int zones a j (true, jobs)).1))
        ≡ true
  unfolding record_run
  recorded_ahead now a j id jobs le fixed h = elim (Bool-cases a.can_record) [
    | inl e ↦ rw e (get-set_ahead zones now id j.id _ jobs (ran-Moves now a le) fixed h)
    | inr e ↦ rw e h
  ]

  advance-Moves :
      (now : ℕ) (a : Attempt)
      → now ≤ a.advance_at
      → Moves zones now (reschedule strip cut split int zones a.advance_at)
  advance-Moves now a le = reschedule-Moves now a.advance_at (λ k. k) le (λ k. (refl, refl))

  advance-AllFixed :
      (a : Attempt) (j : Job) (jobs : List Job)
      → AllFixed zones jobs
      → AllFixed zones (set_job j.id (reschedule strip cut split int zones a.advance_at) jobs)
  advance-AllFixed a j jobs fixed = set_job-AllFixed zones j.id _ jobs (λ k. refl) fixed

  -- a job that runs is ahead afterwards
  run_due-ahead :
      (now : ℕ) (a : Attempt) (j : Job) (jobs : List Job)
      → now ≤ a.advance_at
      → now ≤ a.record_at
      → AllFixed zones jobs
      → (run_due strip cut split int zones a j jobs).0 ≡ true
      → is_ahead now (next_of (get_job j.id (run_due strip cut split int zones a j jobs).1)) ≡ true
  unfolding run_due advance_next_run
  run_due-ahead now a j jobs le le' fixed =
      elim (Bool-cases (is_some (get_job j.id jobs) && a.can_advance)) [
        | inl e ↦
            let there = both_true (is_some (get_job j.id jobs)) a.can_advance e in
            let moved = get-set_self zones now j.id _ jobs (advance-Moves now a le) fixed there.0 in
            rw e λ _. recorded_ahead now a j j.id _ le' (advance-AllFixed a j jobs fixed) moved
        | inr e ↦ rw e λ bad. absurd (cc bad)
      ]

  -- and one that is ahead stays so
  run_due-stays :
      (now : ℕ) (a : Attempt) (j : Job) (id : String) (jobs : List Job)
      → now ≤ a.advance_at
      → now ≤ a.record_at
      → AllFixed zones jobs
      → is_ahead now (next_of (get_job id jobs)) ≡ true
      → is_ahead now (next_of (get_job id (run_due strip cut split int zones a j jobs).1)) ≡ true
  unfolding run_due advance_next_run
  run_due-stays now a j id jobs le le' fixed h =
      elim (Bool-cases (is_some (get_job j.id jobs) && a.can_advance)) [
        | inl e ↦
            let moved = get-set_ahead zones now id j.id _ jobs (advance-Moves now a le) fixed h in
            rw e (recorded_ahead now a j id _ le' (advance-AllFixed a j jobs fixed) moved)
        | inr e ↦ rw e h
      ]

  module _ (now : ℕ) (world : Job → Attempt)
      (timely : (j : Job) → (now ≤ (world j).advance_at) × (now ≤ (world j).record_at)) where
    run_all-stays :
        (due : List Job) (id : String) (jobs : List Job)
        → AllFixed zones jobs
        → is_ahead now (next_of (get_job id jobs)) ≡ true
        → is_ahead now (next_of (get_job id (run_all strip cut split int zones world due jobs).1))
          ≡ true
    unfolding run_all
    run_all-stays [] id jobs fixed h = h
    run_all-stays (j ∷ due) id jobs fixed h =
        run_all-stays due id (run_due strip cut split int zones (world j) j jobs).1
          (run_due-AllFixed strip cut split int zones (world j) j jobs fixed)
          (run_due-stays now (world j) j id jobs (timely j).0 (timely j).1 fixed h)

    run_all-ahead :
        (due : List Job) (id : String) (jobs : List Job)
        → AllFixed zones jobs
        → member id (run_all strip cut split int zones world due jobs).0 ≡ true
        → is_ahead now (next_of (get_job id (run_all strip cut split int zones world due jobs).1))
          ≡ true
    unfolding run_all
    run_all-ahead [] id jobs fixed = λ h. absurd (cc h)
    run_all-ahead (j ∷ due) id jobs fixed =
        let next = (run_due strip cut split int zones (world j) j jobs).1 in
        let fixed' = run_due-AllFixed strip cut split int zones (world j) j jobs fixed in
        let ih = run_all-ahead due id next fixed' in
        elim (Bool-cases (run_due strip cut split int zones (world j) j jobs).0) [
          | inr idle ↦ rw idle ih
          | inl does ↦ rw does (elim (Bool-cases (id == j.id)) [
            | inr other ↦ rw other ih
            | inl is ↦ rw is λ _. run_all-stays due id next fixed' (
                subst (λ k. is_ahead now (next_of (get_job k next)) ≡ true)
                  (sym ((eq_iff id j.id).0 is))
                  (run_due-ahead now (world j) j jobs (timely j).0 (timely j).1 fixed does))
          ])
        ]

    run_found-ahead :
        (d : Due) (id : String)
        → AllFixed zones d.1
        → member id (run_found strip cut split int zones world d).0 ≡ true
        → is_ahead now (next_of (get_job id (run_found strip cut split int zones world d).1)) ≡ true
    run_found-ahead (none, jobs) id fixed h = absurd (cc h)
    run_found-ahead (some due, jobs) id fixed h = run_all-ahead due id jobs fixed h

    -- Where every job is in a zone whose clock has a fixed offset, as UTC's has, a job that runs in a pass of the
    -- scheduler is not due at the time of the pass any more: its next run in the file is later, also where the
    -- outcome of the run could not be saved. The reads of the clock in the pass are not before its start.
    pub scheduler_pass-ahead :
        (saves : Bool) (jobs : List Job) (id : String)
        → AllFixed zones jobs
        → member id (scheduler_pass strip cut split int zones saves now world jobs).0 ≡ true
        → is_ahead now
            (next_of (get_job id (scheduler_pass strip cut split int zones saves now world jobs).1))
          ≡ true
    unfolding scheduler_pass
    scheduler_pass-ahead saves jobs id fixed h =
        run_found-ahead (due_jobs strip cut split int zones saves now jobs jobs) id
          (due_jobs-AllFixed strip cut split int zones saves now jobs jobs fixed) h
