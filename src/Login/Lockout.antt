-- ===== src/Login/Lockout.antt =====
-- When the throttle locks: at the last failure that is allowed, and not before.
use sysible_controller.Prelude.{
  ℕ, suc, ◌+◌, ◌-◌, ◌*◌, ◌/◌, ◌≤◌, ◌<◌, ◌≡◌, refl, ap, ◌∙◌, String, true, false, none, List, [],
  ◌∷◌, ◌++◌, length, length-append, append_assoc, append-nil, All, All-append, Dict, lookup, insert,
  lookup-insert_self, leb, ◌==◌, if◌then◌else◌, arith, Bool-cases, inl, inr,
}
use sysible_controller.Login.Throttle.{
  Row, clear_row, second, row_of, recent, after_failure, login_throttle_record_failure,
  login_throttle_locked_for,
}

-- within one window, which is in seconds, from `base` on
abbrev pub IsWithin : ℕ → ℕ → ℕ → Type 0
IsWithin base window t = (base ≤ t) × (t < base + window * second)

recent_keeps :
    (base window now : ℕ) (fails : List ℕ)
    → IsWithin base window now
    → All (IsWithin base window) fails
    → recent window now fails ≡ fails
recent_keeps base window now [] w h = refl
recent_keeps base window now (t ∷ ts) w h =
    ground (arith, h.0, w, recent_keeps base window now ts w h.1)

module _ (key : String) (window max_failures lockout : ℕ) where
  -- failed logins at these times
  unfoldable pub failures : List ℕ → Dict Row → Dict Row
  unfolding login_throttle_record_failure
  failures [] rows = rows
  failures (t ∷ ts) rows =
      failures ts (login_throttle_record_failure key window max_failures lockout t rows).1

  under_limit :
      (base now : ℕ) (row : Row)
      → IsWithin base window now
      → All (IsWithin base window) row.fails
      → suc (length row.fails) < max_failures
      → after_failure window max_failures lockout now row
        ≡ ((row.until - now) / second, record { fails = row.fails ++ now ∷ []; until = row.until })
  unfolding after_failure
  under_limit base now row w h few =
      let under : leb max_failures (length (row.fails ++ now ∷ [])) ≡ false =
        ground (arith, length-append row.fails (now ∷ []), few) in
      rw (recent_keeps base window now row.fails w h, under) refl

  at_limit :
      (base now : ℕ) (row : Row)
      → IsWithin base window now
      → All (IsWithin base window) row.fails
      → suc (length row.fails) ≡ max_failures
      → after_failure window max_failures lockout now row
        ≡ (lockout, record { fails = []; until = now + lockout * second })
  unfolding after_failure
  at_limit base now row w h full =
      let reached : leb max_failures (length (row.fails ++ now ∷ [])) ≡ true =
        ground (arith, length-append row.fails (now ∷ []), full) in
      rw (recent_keeps base window now row.fails w h, reached) refl

  record_row :
      (now : ℕ) (rows : Dict Row)
      → (key == "") ≡ false
      → login_throttle_record_failure key window max_failures lockout now rows ≡ (
        (after_failure window max_failures lockout now (row_of (lookup key rows))).0,
        insert key
            (after_failure window max_failures lockout now (row_of (lookup key rows))).1
            rows,
      )
  unfolding login_throttle_record_failure
  record_row now rows named = rw named refl

  failures_row :
      (base : ℕ) (ts : List ℕ) (row : Row) (rows : Dict Row)
      → (key == "") ≡ false
      → row_of (lookup key rows) ≡ row
      → All (IsWithin base window) row.fails
      → All (IsWithin base window) ts
      → length row.fails + length ts < max_failures
      → row_of (lookup key (failures ts rows))
        ≡ record { fails = row.fails ++ ts; until = row.until }
  unfolding failures
  failures_row base [] row rows named at h w few = rw append-nil at
  failures_row base (t ∷ ts) row rows named at h w few =
      let next : Row = record { fails = row.fails ++ t ∷ []; until = row.until } in
      let rows' = (login_throttle_record_failure key window max_failures lockout t rows).1 in
      let at' : row_of (lookup key rows') ≡ next =
        rw
          (
            record_row t rows named,
            at,
            under_limit base t row w.0 h (omega (arith, few)),
            lookup-insert_self,
          )
          refl in
      let ih = failures_row base ts in
      ih next rows' named at' (All-append _ row.fails (t ∷ []) h (w.0, tt)) w.1
        (omega (arith, few, length-append row.fails (t ∷ [])))
      ∙ ap (λ (fs : List ℕ). record { fails = fs; until = row.until })
          (append_assoc row.fails (t ∷ []) ts)

-- The throttle locks a key at its last allowed failure, and not before. The key had no row; its
-- failures and the present one all lie within one window, and the failures before the present one
-- are fewer than the limit allows. Then no lockout is in effect before the present one. If it is the
-- one that reaches the limit, it answers the seconds of the lockout, and at any later time the answer is
-- the whole seconds that are left of it, 0 in its last second; if not, there is still none.
pub lockout_at_limit :
    (key : String) (window max_failures lockout base now later : ℕ) (ts : List ℕ) (rows : Dict Row)
    → (key == "") ≡ false
    → lookup key rows ≡ none
    → All (IsWithin base window) ts
    → IsWithin base window now
    → suc (length ts) ≤ max_failures
    → let before = failures key window max_failures lockout ts rows in
      let (locked, after) =
        login_throttle_record_failure key window max_failures lockout now before in
      let reached = leb max_failures (suc (length ts)) in
      (login_throttle_locked_for key later before ≡ 0)
      × (locked ≡ (if reached then lockout else 0))
      × (login_throttle_locked_for key later after
          ≡ (if reached then (now + lockout * second - later) / second else 0))
unfolding login_throttle_locked_for
lockout_at_limit key window max_failures lockout base now later ts rows named new w here few =
    let row : Row = record { fails = ts; until = 0 } in
    let at : row_of (lookup key (failures key window max_failures lockout ts rows)) ≡ row =
      failures_row key window max_failures lockout base ts clear_row rows named (ap row_of new) tt w
        (omega (arith, few)) in
    let before0 : (0 - later) / second ≡ 0 = omega arith in
    let now0 : (0 - now) / second ≡ 0 = omega arith in
    elim (Bool-cases (leb max_failures (suc (length ts)))) [
      | inl reached ↦
          rw
            (
              named,
              record_row key window max_failures lockout now _ named,
              at,
              at_limit key window max_failures lockout base now row here w
                  (ground (arith, few, reached)),
              lookup-insert_self,
              reached,
            )
            (before0, refl, refl)
      | inr under ↦
          rw
            (
              named,
              record_row key window max_failures lockout now _ named,
              at,
              under_limit key window max_failures lockout base now row here w
                  (ground (arith, few, under)),
              lookup-insert_self,
              under,
            )
            (before0, now0, before0)
    ]
