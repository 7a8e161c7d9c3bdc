-- ===== src/Schedules/Least.antt =====
-- The next run is the first matching time after now.
use sysible_controller.Prelude.{
  ℕ, ◌+◌, ◌*◌, ◌/◌, ◌%◌, ◌≤◌, ◌<◌, ◌≡◌, refl, String, ◌&&◌, Option, none, some, List, [], ◌∷◌, leb,
  ◌==◌, if◌then◌else◌, arith, Bool-cases, inl, inr,
}
use sysible_controller.Schedules.Clock.{
  minute, hour, day, in_range, hhmm_parts, parse_hhmm, replace_minute, replace_time, weekday_of,
  later_by, days_until, next_wall,
}

-- a time at which a job of the cadence runs
abbrev pub Matches : String → ℕ → ℕ × ℕ → ℕ → Type 0
Matches cadence weekday (h, m) t =
    if cadence == "hourly"
    then t % hour ≡ m * minute
    else if cadence == "weekly"
    then (t % day ≡ h * hour + m * minute) × (t / day % 7 ≡ weekday % 7)
    else t % day ≡ h * hour + m * minute

hourly_least :
    (m now t : ℕ)
    → m ≤ 59
    → now < t
    → t % hour ≡ m * minute
    → let n = later_by hour now (replace_minute m now) in
      (n % hour ≡ m * minute) × (now < n) × (n ≤ t)
hourly_least m now t mm lt due =
    (ground (arith, mm), ground (arith, mm), ground (arith, mm, lt, due))

daily_least :
    (h m now t : ℕ)
    → h ≤ 23
    → m ≤ 59
    → now < t
    → t % day ≡ h * hour + m * minute
    → let n = later_by day now (replace_time h m now) in
      (n % day ≡ h * hour + m * minute) × (now < n) × (n ≤ t)
daily_least h m now t hh mm lt due =
    (ground (arith, hh, mm), ground (arith, hh, mm), ground (arith, hh, mm, lt, due))

-- the same, counted in days: the day of the week comes next
day_least :
    (w d t : ℕ)
    → w < 7
    → d ≤ t
    → t % 7 ≡ w
    → let n = d + days_until w (d % 7) in (n % 7 ≡ w) × (d ≤ n) × (n ≤ t)
day_least w d t lt le due = (ground (arith, lt), ground (arith, lt), ground (arith, lt, le, due))

day_part : (d s : ℕ) → s < day → (d * day + s) / day ≡ d
day_part d s lt = omega (arith, lt)

rest_part : (d s : ℕ) → s < day → (d * day + s) % day ≡ s
rest_part d s lt = omega (arith, lt)

-- a time of day s on the first day N with the weekday, or a week after it
week_least :
    (w n s now t : ℕ)
    → s < day
    → n % 7 ≡ w
    → now / day ≤ n
    → now < t
    → t % day ≡ s
    → t / day % 7 ≡ w
    → n ≤ t / day
    → let r = later_by (7 * day) now (n * day + s) in
      (r % day ≡ s) × (r / day % 7 ≡ w) × (now < r) × (r ≤ t)
week_least w n s now t ss on le lt due again first = elim (Bool-cases (leb (n * day + s) now)) [
  | inl past ↦
      let same : n * day + s + 7 * day ≡ (n + 7) * day + s = omega arith in
      let not_after : n * day + s ≤ now = ground (arith, past) in
      rw (past, same, day_part (n + 7) s ss, rest_part (n + 7) s ss)
        (
          refl,
          omega (arith, on),
          omega (arith, le),
          omega (arith, ss, not_after, lt, due, on, again),
        )
  | inr ahead ↦
      rw (ahead, day_part n s ss, rest_part n s ss)
        (refl, on, ground (arith, ahead), omega (arith, due, first))
]

weekly_least :
    (w h m now t : ℕ)
    → w < 7
    → h ≤ 23
    → m ≤ 59
    → now < t
    → t % day ≡ h * hour + m * minute
    → t / day % 7 ≡ w
    → let n =
        later_by
          (7 * day)
          now
          (replace_time h m now + days_until w (weekday_of (replace_time h m now)) * day) in
      (n % day ≡ h * hour + m * minute) × (n / day % 7 ≡ w) × (now < n) × (n ≤ t)
weekly_least w h m now t ww hh mm lt due on =
    let s = h * hour + m * minute in
    let ss : s < day = omega (arith, hh, mm) in
    let (weekday, from, first) = day_least w (now / day) (t / day) ww (omega (arith, lt)) on in
    let start : replace_time h m now ≡ now / day * day + s = omega arith in
    let e = days_until w (now / day % 7) in
    let days : now / day * day + s + e * day ≡ (now / day + e) * day + s = omega arith in
    rw (start, day_part (now / day) s ss, days)
      (week_least w (now / day + e) s now t ss weekday from lt due on first)

abbrev IsTime : ℕ × ℕ → Type 0
IsTime (h, m) = (h ≤ 23) × (m ≤ 59)

in_range-IsTime : (h m : Option ℕ) → IsTime (in_range h m)
in_range-IsTime none m = (omega arith, omega arith)
in_range-IsTime (some h) none = (omega arith, omega arith)
in_range-IsTime (some h) (some m) = elim (Bool-cases (leb h 23 && leb m 59)) [
  | inl e ↦ rw e (ground (arith, e), ground (arith, e))
  | inr e ↦ rw e (omega arith, omega arith)
]

hhmm_parts-IsTime : (int : String → Option ℕ) (parts : List String) → IsTime (hhmm_parts int parts)
hhmm_parts-IsTime int [] = (omega arith, omega arith)
hhmm_parts-IsTime int (h ∷ []) = (omega arith, omega arith)
hhmm_parts-IsTime int (h ∷ m ∷ []) = in_range-IsTime (int h) (int m)
hhmm_parts-IsTime int (h ∷ m ∷ x ∷ rest) = (omega arith, omega arith)

wall_least :
    (cadence : String) (weekday : ℕ) (at : ℕ × ℕ) (now t : ℕ)
    → IsTime at
    → now < t
    → Matches cadence weekday at t
    → Matches cadence weekday at (next_wall cadence weekday at now)
      × (now < next_wall cadence weekday at now)
      × (next_wall cadence weekday at now ≤ t)
unfolding next_wall
wall_least cadence weekday (h, m) now t time lt = elim (Bool-cases (cadence == "hourly")) [
  | inl e ↦ rw e λ due. hourly_least m now t time.1 lt due
  | inr e ↦ rw e (elim (Bool-cases (cadence == "weekly")) [
    | inl f ↦ rw f λ due.
        let (a, b, c, d) =
          weekly_least (weekday % 7) h m now t (omega arith) time.0 time.1 lt due.0 due.1 in
        ((a, b), c, d)
    | inr f ↦ rw f λ due. daily_least h m now t time.0 time.1 lt due
  ])
]

-- The next run of a job is the first time on the clock of its zone that is after now and matches the job: for an hourly
-- job its minute, for a weekly one its time of day and weekday, for any other its time of day. It
-- matches, it is after now, and no matching time after now is before it, whatever text the time of day is.
pub next_wall-least :
    (split : String → List String) (int : String → Option ℕ) (cadence : String) (weekday : ℕ)
    (at : String) (now t : ℕ)
    → now < t
    → Matches cadence weekday (parse_hhmm split int at) t
    → Matches cadence weekday
        (parse_hhmm split int at)
        (next_wall cadence weekday (parse_hhmm split int at) now)
      × (now < next_wall cadence weekday (parse_hhmm split int at) now)
      × (next_wall cadence weekday (parse_hhmm split int at) now ≤ t)
unfolding parse_hhmm
next_wall-least split int cadence weekday at now t =
    wall_least cadence weekday (parse_hhmm split int at) now t
      (hhmm_parts-IsTime int (split (if at == "" then "02:00" else at)))

later_after : (step now nxt : ℕ) → now < nxt + step → now < later_by step now nxt
later_after step now nxt h = ground (arith, h)

wall_after :
    (cadence : String) (weekday : ℕ) (at : ℕ × ℕ) (now : ℕ) → now < next_wall cadence weekday at now
unfolding next_wall
wall_after cadence weekday (h, m) now = elim (Bool-cases (cadence == "hourly")) [
  | inl e ↦ rw e (later_after hour now (replace_minute m now) (omega arith))
  | inr e ↦ rw e (elim (Bool-cases (cadence == "weekly")) [
    | inl f ↦
        rw f (later_after (7 * day) now _ (week_after (replace_time h m now) now _ (omega arith)))
    | inr f ↦ rw f (later_after day now (replace_time h m now) (omega arith))
  ])
]
  where
    week_after : (n now e : ℕ) → now < n + day → now < n + e * day + 7 * day
    week_after n now e h = omega (arith, h)

-- The next run is after now, whatever the job says.
pub next_after :
    (split : String → List String) (int : String → Option ℕ) (cadence : String) (weekday : ℕ)
    (at : String) (now : ℕ)
    → now < next_wall cadence weekday (parse_hhmm split int at) now
next_after split int cadence weekday at now =
    wall_after cadence weekday (parse_hhmm split int at) now
