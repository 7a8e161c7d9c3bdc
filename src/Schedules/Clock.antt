-- ===== src/Schedules/Clock.antt =====
-- `_parse_hhmm` and `compute_next_run`, on the clock of the job's time zone: microseconds from
-- the start of a Monday, the first day of year 1.
use sysible_controller.Prelude.{
  ℕ, ◌+◌, ◌-◌, ◌*◌, ◌/◌, ◌%◌, String, Bool, false, ◌&&◌, Option, some, List, [], ◌∷◌, leb, ◌==◌,
  if◌then◌else◌,
}

abbrev pub minute : ℕ
minute = 60000000

abbrev pub hour : ℕ
hour = 3600000000

abbrev pub day : ℕ
day = 86400000000

-- the two numbers, if they are a time
abbrev pub in_range : Option ℕ → Option ℕ → ℕ × ℕ
in_range (some h) (some m) = if leb h 23 && leb m 59 then (h, m) else (2, 0)
in_range _ _ = (2, 0)

-- exactly two parts
abbrev pub hhmm_parts : (String → Option ℕ) → List String → ℕ × ℕ
hhmm_parts int (h ∷ m ∷ []) = in_range (int h) (int m)
hhmm_parts int _ = (2, 0)

-- `split` is `str.split` at ":", and `int` is `int`, with none for what is no number or below 0
unfoldable pub parse_hhmm : (String → List String) → (String → Option ℕ) → String → ℕ × ℕ
parse_hhmm split int at = hhmm_parts int (split (if at == "" then "02:00" else at))

-- `now.replace(minute=m, second=0, microsecond=0)`
abbrev pub replace_minute : ℕ → ℕ → ℕ
replace_minute m now = now / hour * hour + m * minute

-- `now.replace(hour=h, minute=m, second=0, microsecond=0)`
abbrev pub replace_time : ℕ → ℕ → ℕ → ℕ
replace_time h m now = now / day * day + h * hour + m * minute

-- `datetime.weekday()`: 0 is Monday
abbrev pub weekday_of : ℕ → ℕ
weekday_of t = t / day % 7

-- `if nxt <= now: nxt += step`
abbrev pub later_by : ℕ → ℕ → ℕ → ℕ
later_by step now nxt = if leb nxt now then nxt + step else nxt

-- `(wd - nxt.weekday()) % 7`, where both are below 7
abbrev pub days_until : ℕ → ℕ → ℕ
days_until wd from = (wd + 7 - from) % 7

-- `compute_next_run` between the two conversions
unfoldable pub next_wall : String → ℕ → ℕ × ℕ → ℕ → ℕ
next_wall cadence weekday (h, m) now =
    if cadence == "hourly"
    then later_by hour now (replace_minute m now)
    else if cadence == "weekly"
    then later_by (7 * day) now
        (replace_time h m now + days_until (weekday % 7) (weekday_of (replace_time h m now)) * day)
    else later_by day now (replace_time h m now)

-- The fold of what `if nxt <= now: nxt += step` leaves: `replace` keeps the fold of `now`, and `+=` takes it off.
abbrev pub fold_kept : Bool → ℕ → ℕ → Bool
fold_kept fold now nxt = if leb nxt now then false else fold

-- the fold of the datetime that `compute_next_run` converts back; a weekly one has been added to
unfoldable pub next_fold : String → ℕ × ℕ → ℕ → Bool → Bool
next_fold cadence (h, m) now fold =
    if cadence == "hourly"
    then fold_kept fold now (replace_minute m now)
    else if cadence == "weekly"
    then false
    else fold_kept fold now (replace_time h m now)
