-- ===== src/Tasks/Counts.antt =====
-- How each statement of the command queue moves a task id between waiting, handed out and finished.
use sysible_controller.Prelude.{
  ℕ, ◌+◌, ◌≤◌, ◌≡◌, refl, String, Bool, not, ◌&&◌, some, List, [], ◌∷◌, select, count_where,
  update_where, nat_eq, arith, if◌then◌else◌,
}
use sysible_controller.Tasks.Queue.{
  Status, pending, dispatched, done, timed_out, Task, Result, Claim, is_pending, is_ready, is_out,
  is_expired, insert_by_id, claims, claim_of,
}
use sysible_controller.Tasks.History.{ids}

abbrev pub occurrences : ℕ → List ℕ → ℕ
occurrences i js = count_where (λ j. nat_eq j i) js

-- the rows of task `i` that wait for a poll
abbrev pub waiting : ℕ → List Task → ℕ
waiting i ts = count_where (λ t. nat_eq t.id i && is_pending t) ts

-- the rows of task `i` whose host has the command and has not reported
abbrev pub out : ℕ → List Task → ℕ
out i ts = count_where (is_out i) ts

abbrev pub results_of : ℕ → List Result → ℕ
results_of i rs = count_where (λ r. nat_eq r.task_id i) rs

occurrences-insert_by_id :
    (i : ℕ) (c : Claim) (ds : List Claim)
    → occurrences i (ids (insert_by_id c ds))
      ≡ (if nat_eq c.id i then 1 else 0) + occurrences i (ids ds)
unfolding insert_by_id
occurrences-insert_by_id i c [] = omega arith
occurrences-insert_by_id i c (d ∷ ds) = ground (arith, occurrences-insert_by_id i c ds)

-- A poll turns each waiting row of its host into one claim and one row handed out.
pub waiting-fetch :
    (host : String) (now i : ℕ) (ts : List Task)
    → waiting i (
          update_where
            (is_ready host)
            (λ t. record t { status = dispatched; handed_out = some now })
            ts)
        + occurrences i (ids (claims (is_ready host) ts))
      ≡ waiting i ts
unfolding claims
waiting-fetch host now i [] = omega arith
waiting-fetch host now i (t ∷ ts) = ground (
  arith,
  waiting-fetch host now i ts,
  occurrences-insert_by_id i (claim_of t) (claims (is_ready host) ts),
)

pub out-fetch :
    (host : String) (now i : ℕ) (ts : List Task)
    → out i (
        update_where
          (is_ready host)
          (λ t. record t { status = dispatched; handed_out = some now })
          ts)
      ≡ out i ts + occurrences i (ids (claims (is_ready host) ts))
unfolding claims
out-fetch host now i [] = omega arith
out-fetch host now i (t ∷ ts) = ground (
  arith,
  out-fetch host now i ts,
  occurrences-insert_by_id i (claim_of t) (claims (is_ready host) ts),
)

-- the states that a task does not leave
abbrev pub IsFinal : Status → Type 0
IsFinal done = Unit
IsFinal timed_out = Unit
IsFinal _ = ⊥

pub waiting-finish :
    (st : Status) (k i : ℕ) (ts : List Task)
    → IsFinal st
    → waiting i (update_where (is_out k) (λ t. record t { status = st }) ts) ≡ waiting i ts
waiting-finish st k i [] f = refl
waiting-finish done k i (t ∷ ts) f = ground (arith, waiting-finish done k i ts tt)
waiting-finish timed_out k i (t ∷ ts) f = ground (arith, waiting-finish timed_out k i ts tt)
waiting-finish pending k i (t ∷ ts) f = absurd f
waiting-finish dispatched k i (t ∷ ts) f = absurd f

pub out-finish :
    (st : Status) (k i : ℕ) (ts : List Task)
    → IsFinal st
    → out i (update_where (is_out k) (λ t. record t { status = st }) ts)
      ≡ (if nat_eq i k then 0 else out i ts)
out-finish st k i [] f = ground arith
out-finish done k i (t ∷ ts) f = ground (arith, out-finish done k i ts tt)
out-finish timed_out k i (t ∷ ts) f = ground (arith, out-finish timed_out k i ts tt)
out-finish pending k i (t ∷ ts) f = absurd f
out-finish dispatched k i (t ∷ ts) f = absurd f

-- Pruning removes rows of finished tasks only.
pub waiting-prune :
    (days now i : ℕ) (ts : List Task)
    → waiting i (select (λ t. not (is_expired days now t)) ts) ≡ waiting i ts
waiting-prune days now i [] = refl
waiting-prune days now i (t ∷ ts) = ground (arith, waiting-prune days now i ts)

pub out-prune :
    (days now i : ℕ) (ts : List Task)
    → out i (select (λ t. not (is_expired days now t)) ts) ≡ out i ts
out-prune days now i [] = refl
out-prune days now i (t ∷ ts) = ground (arith, out-prune days now i ts)

pub results_of-select-le :
    (test : Result → Bool) (i : ℕ) (rs : List Result)
    → results_of i (select test rs) ≤ results_of i rs
results_of-select-le test i [] = omega arith
results_of-select-le test i (r ∷ rs) = ground (arith, results_of-select-le test i rs)
