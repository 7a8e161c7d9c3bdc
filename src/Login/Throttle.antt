-- ===== src/Login/Throttle.antt =====
-- `login_throttle_locked_for`, `login_throttle_record_failure`, `login_throttle_clear`.
use sysible_controller.Prelude.{
  ℕ, ◌+◌, ◌-◌, ◌*◌, ◌/◌, String, Option, none, some, List, [], ◌∷◌, ◌++◌, length, select, Dict,
  lookup, insert, erase, ltb, leb, ◌==◌, if◌then◌else◌,
}

-- the columns `fails`, which reads as no failures where it is no list, and `until`
pub record Row : Type 0 where
  pub fails : List ℕ
  pub until : ℕ

abbrev pub clear_row : Row
clear_row = record { fails = []; until = 0 }

abbrev pub row_of : Option Row → Row
row_of none = clear_row
row_of (some row) = row

-- a second of the clock, which counts in microseconds
abbrev pub second : ℕ
second = 1000000

-- the whole seconds that are left
unfoldable pub login_throttle_locked_for : String → ℕ → Dict Row → ℕ
login_throttle_locked_for key now rows =
    if key == "" then 0 else ((row_of (lookup key rows)).until - now) / second

-- the failures that count: `now - t < window_s`, with `window` in seconds
abbrev pub recent : ℕ → ℕ → List ℕ → List ℕ
recent window now fails = select (λ t. ltb now (t + window * second)) fails

-- the whole seconds of a lockout now in effect, and the row written
unfoldable pub after_failure : ℕ → ℕ → ℕ → ℕ → Row → ℕ × Row
after_failure window max_failures lockout now row =
    let fails = recent window now row.fails ++ now ∷ [] in
    if leb max_failures (length fails)
    then (lockout, record { fails = []; until = now + lockout * second })
    else ((row.until - now) / second, record { fails = fails; until = row.until })

unfoldable pub login_throttle_record_failure : String → ℕ → ℕ → ℕ → ℕ → Dict Row → ℕ × Dict Row
unfolding after_failure
login_throttle_record_failure key window max_failures lockout now rows =
    if key == ""
    then (0, rows)
    else let (locked, row) =
        after_failure window max_failures lockout now (row_of (lookup key rows)) in
      (locked, insert key row rows)

unfoldable pub login_throttle_clear : String → Dict Row → Dict Row
login_throttle_clear key rows = if key == "" then rows else erase key rows
