-- ===== src/Tasks/Delivery.antt =====
-- At most once: in any history of the command queue no task is handed out twice, and none has more
-- results than deliveries.
use sysible_controller.Prelude.{
  append-nil, Option, ℕ, zero, suc, ◌+◌, ◌≤◌, String, List, [], ◌∷◌, ◌++◌, select, count_where,
  count_where-append, nat_eq, ltb, arith, if◌then◌else◌, Bool-cases, inl, inr,
}
use sysible_controller.Tasks.Queue.{
  Status, done, timed_out, Task, Tables, is_out, is_stale, queue_task, fetch_pending_tasks, finish,
  submit_task_result, reclaim_each, reclaim_stale_tasks, prune_terminal_tasks, lost_message,
}
use sysible_controller.Tasks.History.{
  Call, queues, polls, submits, reclaims, ids, empty, step, play,
}
use sysible_controller.Tasks.Counts.{
  occurrences, waiting, out, results_of, IsFinal, waiting-fetch, out-fetch, waiting-finish,
  out-finish, waiting-prune, out-prune, results_of-select-le,
}

-- What ties the row counts of task `i` to the deliveries so far.
pub record IsOnce (i : ℕ) (delivered : List ℕ) (db : Tables) : Type 0 where
  pub once : occurrences i delivered + waiting i db.tasks ≤ (if ltb i db.next_task then 1 else 0)
  pub answered : results_of i db.results + out i db.tasks ≤ occurrences i delivered

module _ (i : ℕ) (delivered : List ℕ) where
  queue-IsOnce :
      (host command kind : String) (run_as : Option String) (now : ℕ) (db : Tables)
      → IsOnce i delivered db
      → IsOnce i delivered (queue_task host command kind run_as now db).1
  unfolding queue_task
  queue-IsOnce host command kind run_as now db inv = record {
    once = rw count_where-append (ground (arith, inv.once));
    answered = rw count_where-append (ground (arith, inv.answered));
  }

  fetch-IsOnce :
      (host : String) (now : ℕ) (db : Tables)
      → IsOnce i delivered db
      → IsOnce i
          (delivered ++ ids (fetch_pending_tasks host now db).0)
          (fetch_pending_tasks host now db).1
  unfolding fetch_pending_tasks
  fetch-IsOnce host now db inv = record {
    once = rw count_where-append (omega (arith, inv.once, waiting-fetch host now i db.tasks));
    answered = rw count_where-append (omega (arith, inv.answered, out-fetch host now i db.tasks));
  }

  pub finish-IsOnce :
      (st : Status) (k : ℕ) (host result : String) (now : ℕ) (db : Tables)
      → IsFinal st
      → IsOnce i delivered db
      → IsOnce i delivered (finish st k host result now db).1
  unfolding finish
  finish-IsOnce st k host result now db f inv =
      elim (Bool-cases (nat_eq (count_where (is_out k) db.tasks) 1)) [
        | inl applied ↦ rw applied (record {
          once = rw (waiting-finish st k i db.tasks f) inv.once;
          answered =
              rw (out-finish st k i db.tasks f, count_where-append) (ground (arith, inv.answered));
        })
        | inr missed ↦ rw missed (record {
          once = rw (waiting-finish st k i db.tasks f) inv.once;
          answered = rw (out-finish st k i db.tasks f) (ground (arith, inv.answered));
        })
      ]

  reclaim_each-IsOnce :
      (stale : List Task) (now n : ℕ) (db : Tables)
      → IsOnce i delivered db
      → IsOnce i delivered (reclaim_each stale now n db).1
  unfolding reclaim_each
  reclaim_each-IsOnce [] now n db inv = inv
  reclaim_each-IsOnce (t ∷ stale) now n db inv =
      let ih = reclaim_each-IsOnce stale now in
      ih _ (finish timed_out t.id t.host_id lost_message now db).1
        (finish-IsOnce timed_out t.id t.host_id lost_message now db tt inv)

  prune-IsOnce :
      (days now : ℕ) (db : Tables)
      → IsOnce i delivered db
      → IsOnce i delivered (prune_terminal_tasks days now db)
  unfolding prune_terminal_tasks
  prune-IsOnce zero now db inv = inv
  prune-IsOnce (suc days) now db inv = record {
    once = rw (waiting-prune (suc days) now i db.tasks) inv.once;
    answered =
        rw (out-prune (suc days) now i db.tasks)
          (omega (arith, inv.answered, results_of-select-le _ i db.results));
  }

  step-IsOnce :
      (db : Tables) (c : Call)
      → IsOnce i delivered db
      → IsOnce i (delivered ++ (step db c).0) (step db c).1
  unfolding step submit_task_result reclaim_stale_tasks
  step-IsOnce db (queues host command kind run_as now) inv =
      rw append-nil (queue-IsOnce host command kind run_as now db inv)
  step-IsOnce db (polls host now) inv = fetch-IsOnce host now db inv
  step-IsOnce db (submits k host result now) inv =
      rw append-nil (finish-IsOnce done k host result now db tt inv)
  step-IsOnce db (reclaims days timeout now later) inv = rw append-nil (
      prune-IsOnce days later _
        (reclaim_each-IsOnce (select (is_stale timeout now) db.tasks) later 0 db inv))

play-IsOnce :
    (i : ℕ) (cs : List Call) (delivered : List ℕ) (db : Tables)
    → IsOnce i delivered db
    → let (delivered', db') = play cs delivered db in IsOnce i delivered' db'
unfolding play
play-IsOnce i [] delivered db inv = inv
play-IsOnce i (c ∷ cs) delivered db inv =
    let ih = play-IsOnce i cs in
    ih (delivered ++ (step db c).0) (step db c).1 (step-IsOnce i delivered db c inv)

-- At most once. Whatever the calls, and in whatever order they reach the database, the polls of a
-- fresh queue together hand a task out at most once, and the table of results holds no more results
-- for a task than it was handed out.
pub at_most_once :
    (i : ℕ) (calls : List Call)
    → let (delivered, db) = play calls [] empty in
      (occurrences i delivered ≤ 1) × (results_of i db.results ≤ occurrences i delivered)
at_most_once i calls =
    let inv =
      play-IsOnce i calls [] empty (record { once = ground arith; answered = omega arith }) in
    (ground (arith, inv.once), omega (arith, inv.answered))
