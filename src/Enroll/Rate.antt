-- ===== src/Enroll/Rate.antt =====
-- backend/app.py: `_enroll_rate_limited`, the flood guard before the enroll lock.
use sysible_controller.Prelude.{
  ℕ, ◌+◌, ◌-◌, ◌≤◌, String, Bool, true, false, not, Option, none, some, List, [], ◌∷◌, ◌++◌, length,
  length-append, length-select-le, select, All, Dict, lookup, insert, ltb, leb, ◌==◌, if◌then◌else◌,
  arith, Bool-cases, inl, inr,
}

abbrev pub hits_of : Option (List ℕ) → List ℕ
hits_of none = []
hits_of (some hits) = hits

abbrev last_or : ℕ → List ℕ → ℕ
last_or t [] = t
last_or _ (t ∷ ts) = last_or t ts

-- `not v or v[-1] < cutoff`, the cutoff being the window before `now`
abbrev pub is_idle : ℕ → ℕ → List ℕ → Bool
is_idle window now [] = true
is_idle window now (t ∷ ts) = ltb (last_or t ts + window) now

-- `max(1, int(hits[0] + window - now))`
abbrev pub retry_after : ℕ → ℕ → List ℕ → ℕ
retry_after window now [] = 1
retry_after window now (t ∷ ts) = if ltb (t + window - now) 1 then 1 else t + window - now

-- the sources without a recent request are dropped once the table is large
unfoldable pub forget_idle : ℕ → ℕ → Dict (List ℕ) → Dict (List ℕ)
forget_idle window now rate =
    if ltb 10000 (length rate)
    then select (λ (row : String × List ℕ). not (is_idle window now row.1)) rate
    else rate

-- with the two settings above 0
unfoldable pub limit_rate : ℕ → ℕ → String → ℕ → Dict (List ℕ) → ℕ × Dict (List ℕ)
unfolding forget_idle
limit_rate maxn window ip now rate =
    let hits = select (λ t. leb now (t + window)) (hits_of (lookup ip rate)) in
    let rate' = insert ip (hits ++ now ∷ []) rate in
    if leb maxn (length hits)
    then (retry_after window now hits, insert ip hits rate)
    else (0, forget_idle window now rate')

unfoldable pub enroll_rate_limited : ℕ → ℕ → String → ℕ → Dict (List ℕ) → ℕ × Dict (List ℕ)
unfolding limit_rate
enroll_rate_limited maxn window ip now rate =
    if ip == ""
    then (0, rate)
    else if leb maxn 0
    then (0, rate)
    else if leb window 0
    then (0, rate)
    else limit_rate maxn window ip now rate

-- No source has more timestamps than the limit.
abbrev pub IsBounded : ℕ → Dict (List ℕ) → Type 0
IsBounded maxn rate = All (λ (row : String × List ℕ). length row.1 ≤ maxn) rate

module _ (maxn : ℕ) where
  insert-IsBounded :
      (ip : String) (hits : List ℕ) (rate : Dict (List ℕ))
      → length hits ≤ maxn
      → IsBounded maxn rate
      → IsBounded maxn (insert ip hits rate)
  unfolding insert
  insert-IsBounded ip hits [] b h = (b, tt)
  insert-IsBounded ip hits ((k, v) ∷ rate) b h = elim (Bool-cases (ip == k)) [
    | inl same ↦ rw same (b, h.1)
    | inr other ↦ rw other (h.0, insert-IsBounded ip hits rate b h.1)
  ]

  select-IsBounded :
      (test : String × List ℕ → Bool) (rate : Dict (List ℕ))
      → IsBounded maxn rate
      → IsBounded maxn (select test rate)
  select-IsBounded test [] h = tt
  select-IsBounded test (row ∷ rate) h =
      let rest = select-IsBounded test rate h.1 in
      elim (Bool-cases (test row)) [ inl keep ↦ rw keep (h.0, rest) | inr drop ↦ rw drop rest ]

  lookup-IsBounded :
      (ip : String) (rate : Dict (List ℕ))
      → IsBounded maxn rate
      → length (hits_of (lookup ip rate)) ≤ maxn
  unfolding lookup
  lookup-IsBounded ip [] h = omega arith
  lookup-IsBounded ip ((k, v) ∷ rate) h = elim (Bool-cases (ip == k)) [
    | inl same ↦ rw same h.0
    | inr other ↦ rw other (lookup-IsBounded ip rate h.1)
  ]

  if-IsBounded :
      (b : Bool) (r r' : ℕ × Dict (List ℕ))
      → IsBounded maxn r.1
      → IsBounded maxn r'.1
      → IsBounded maxn (if b then r else r').1
  if-IsBounded true r r' h h' = h
  if-IsBounded false r r' h h' = h'

  forget_idle-IsBounded :
      (window now : ℕ) (rate : Dict (List ℕ))
      → IsBounded maxn rate
      → IsBounded maxn (forget_idle window now rate)
  unfolding forget_idle
  forget_idle-IsBounded window now rate h = elim (Bool-cases (ltb 10000 (length rate))) [
    | inl large ↦ rw large (select-IsBounded _ rate h)
    | inr small ↦ rw small h
  ]

  limit_rate-IsBounded :
      (window : ℕ) (ip : String) (now : ℕ) (rate : Dict (List ℕ))
      → IsBounded maxn rate
      → IsBounded maxn (limit_rate maxn window ip now rate).1
  unfolding limit_rate
  limit_rate-IsBounded window ip now rate h =
      let stored = hits_of (lookup ip rate) in
      let hits = select (λ t. leb now (t + window)) stored in
      elim (Bool-cases (leb maxn (length hits))) [
        | inl full ↦ rw full (
            insert-IsBounded ip hits rate
              (omega (
                arith,
                length-select-le (λ t. leb now (t + window)) stored,
                lookup-IsBounded ip rate h,
              ))
              h)
        | inr room ↦
            let h' =
              insert-IsBounded ip (hits ++ now ∷ []) rate
                (ground (arith, room, length-append hits (now ∷ []))) h in
            rw room (forget_idle-IsBounded window now _ h')
      ]

  -- The flood guard keeps its memory of every source bounded: where no source has more timestamps than
  -- the limit, none has after one more request either, admitted or not.
  pub rate_limited-IsBounded :
      (window : ℕ) (ip : String) (now : ℕ) (rate : Dict (List ℕ))
      → IsBounded maxn rate
      → IsBounded maxn (enroll_rate_limited maxn window ip now rate).1
  unfolding enroll_rate_limited
  rate_limited-IsBounded window ip now rate h =
      if-IsBounded (ip == "") (0, rate) _ h
        (if-IsBounded (leb maxn 0) (0, rate) _ h
          (if-IsBounded (leb window 0) (0, rate) _ h (limit_rate-IsBounded window ip now rate h)))
