-- ===== src/Schedules/Tests.antt =====
-- A nightly job and a command of the superuser, and the theorems at them. The clock is that of UTC.
use sysible_controller.Prelude.{
  ℕ, ◌+◌, ◌-◌, ◌*◌, ◌≤◌, ◌<◌, ◌≡◌, refl, String, true, false, not, ◌&&◌, ◌||◌, leb, Option, none,
  some, List, [], ◌∷◌, length, select, lookup, ◌==◌, if◌then◌else◌, arith,
}
use sysible_controller.Schedules.Clock.{minute, hour, day, parse_hhmm, next_wall, next_fold}
use sysible_controller.Schedules.Least.{Matches, next_wall-least}
use sysible_controller.Schedules.Store.{
  Job, Fields, Zones, get_job, set_job, delete_job, create_job, update_job, record_run, validate,
  compute_next_run, advance_next_run,
}
use sysible_controller.Schedules.Tick.{Attempt, scheduler_pass, due_jobs, run_all, run_due}
use sysible_controller.Schedules.Fixed.{IsFixed}
use sysible_controller.Schedules.Once.{is_ahead, next_of, scheduler_pass-ahead}
use sysible_controller.Schedules.Routes.{
  Use, guard_freeform_schedule, schedules_create, schedules_update, schedules_delete,
  schedules_run_now, serve, use_all,
}
use sysible_controller.Schedules.Freeform.{is_freeform_job, is_kept, deletes, use_all-freeform}

abbrev as_is : String → String
as_is s = s

-- "02:30" and "02:00", and anything else
abbrev split : String → List String
split s =
    if s == "02:30" then "02" ∷ "30" ∷ [] else if s == "02:00" then "02" ∷ "00" ∷ [] else s ∷ []

abbrev int : String → Option ℕ
int s =
    if s == "02" then some 2 else if s == "30" then some 30 else if s == "00" then some 0 else none

abbrev utc : Zones
utc = record { wall = λ tz t. t; fold = λ tz t. false; instant = λ tz fold t. t }

-- two hours ahead of UTC
abbrev east : Zones
east = record {
  wall = λ tz t. t + 2 * hour;
  fold = λ tz t. false;
  instant = λ tz fold t. t - 2 * hour;
}

-- two hours ahead of UTC until 01:00 UTC of the first day, and one hour ahead from then on
abbrev autumn : Zones
autumn = record {
  wall = λ tz t. if leb hour t then t + hour else t + 2 * hour;
  fold = λ tz t. leb hour t && not (leb (2 * hour) t);
  instant = λ tz fold w. if fold || leb (3 * hour) w then w - hour else w - 2 * hour;
}

-- a Thursday at 02:45
abbrev thursday : ℕ
thursday = 3 * day + 2 * hour + 45 * minute

abbrev next : String → ℕ → String → ℕ
next cadence weekday at = next_wall cadence weekday (parse_hhmm split int at) thursday

times :
    (next "hourly" 0 "02:30" ≡ 3 * day + 3 * hour + 30 * minute)
    × (next "daily" 0 "02:30" ≡ 4 * day + 2 * hour + 30 * minute)
    × (next "weekly" 3 "02:30" ≡ 10 * day + 2 * hour + 30 * minute)
    × (next "weekly" 9 "nonsense" ≡ 9 * day + 2 * hour)
unfolding next_wall parse_hhmm
times = (refl, refl, refl, refl)

next_wall-least_example :
    let at = parse_hhmm split int "02:30" in
    Matches "weekly" 2 at (next "weekly" 2 "02:30")
    × (thursday < next "weekly" 2 "02:30")
    × (next "weekly" 2 "02:30" ≤ 16 * day + 2 * hour + 30 * minute)
unfolding parse_hhmm
next_wall-least_example =
    next_wall-least split int "weekly" 2 "02:30" thursday (16 * day + 2 * hour + 30 * minute)
      (omega arith) (refl, refl)

abbrev fields : String → String → Fields
fields action arg = record {
  name = "";
  action = action;
  arg = arg;
  targets = [];
  cadence = "daily";
  at = "02:30";
  weekday = 0;
  enabled = true;
  tz = "";
}

unfoldable asked : List (String × Use) → List Job → List Job
unfolding use_all serve schedules_create schedules_update schedules_delete schedules_run_now
    create_job update_job delete_job record_run validate compute_next_run next_wall next_fold
    parse_hhmm guard_freeform_schedule get_job set_job
asked us jobs = use_all as_is as_is split int utc us jobs

-- the superuser's command and the operator's updates, both due at 02:30 on the first day
abbrev jobs : List Job
jobs =
    asked
      (("superuser", Use.create "c" 0 "ann" (fields "run_command" "ls"))
        ∷ ("sysadmin", Use.create "u" 0 "bob" (fields "all_updates" ""))
        ∷ [])
      []

abbrev meddling : List (String × Use)
meddling =
    ("sysadmin", Use.create "d" 5 "bob" (fields "run_command" "rm"))
    ∷ ("sysadmin", Use.update "c" 5 (fields "reboot" ""))
    ∷ ("sysadmin", Use.update "u" 5 (fields "restart_service" "x"))
    ∷ ("sysadmin", Use.run_now "c" 5 "ok" "")
    ∷ ("sysadmin", Use.run_now "u" thursday "ok" "")
    ∷ []

use_all-freeform_example :
    select is_freeform_job (use_all as_is as_is split int utc meddling jobs)
    ≡ select (is_kept (deletes meddling)) (select is_freeform_job jobs)
use_all-freeform_example = use_all-freeform as_is as_is split int utc meddling jobs refl

stored :
    (length jobs ≡ 2)
    × (length (asked meddling jobs) ≡ 2)
    × (next_of (get_job "u" (asked meddling jobs)) ≡ some (4 * day + 2 * hour + 30 * minute))
    × (length (asked (("sysadmin", Use.delete "c") ∷ []) jobs) ≡ 1)
unfolding asked get_job lookup
stored = (refl, refl, refl, refl)

-- each job runs on the first day at 02:31, and the file cannot be written after the run of the first
abbrev world : Job → Attempt
world j = record {
  can_advance = true;
  advance_at = 2 * hour + 31 * minute;
  status = "ok";
  detail = "";
  can_record = j.id == "u";
  record_at = 2 * hour + 40 * minute;
}

abbrev passed : List String × List Job
passed = scheduler_pass as_is as_is split int east true (2 * hour + 31 * minute) world jobs

ran_both : passed.0 ≡ "c" ∷ "u" ∷ []
unfolding asked scheduler_pass due_jobs run_all run_due advance_next_run lookup
ran_both = refl

east-IsFixed : IsFixed east ""
east-IsFixed = (2 * hour, 0, (λ t. omega arith), (λ fold w le. omega (arith, le)))

scheduler_pass-ahead_example :
    is_ahead (2 * hour + 31 * minute) (next_of (get_job "c" passed.1)) ≡ true
unfolding asked scheduler_pass due_jobs run_all run_due advance_next_run lookup
scheduler_pass-ahead_example =
    scheduler_pass-ahead as_is as_is split int east (2 * hour + 31 * minute) world
      (λ j. (omega arith, omega arith)) true jobs "c" (east-IsFixed, (east-IsFixed, tt)) refl

-- In the second pass of the hour that the clock of `autumn` repeats, at 02:15: a daily job's next run is in 15 minutes,
-- and a weekly job's is 45 minutes ago.
abbrev repeated : String → Option ℕ
repeated cadence = next_of (
    get_job "x" (
      use_all as_is as_is split int autumn
        ((
          "superuser",
          Use.create "x" (hour + 15 * minute) "ann"
              (record (fields "reboot" "") { cadence = cadence }),
        )
          ∷ [])
        []))

second_pass :
    (repeated "daily" ≡ some (hour + 30 * minute)) × (repeated "weekly" ≡ some (30 * minute))
unfolding asked next_fold lookup
second_pass = (refl, refl)
