-- ===== src/Tasks/History.antt =====
-- A history of the command queue: the calls of backend/db.py in the order of their transactions,
-- with the ids that the polls handed out.
use sysible_controller.Prelude.{ℕ, String, Option, List, [], ◌∷◌, ◌++◌, map}
use sysible_controller.Tasks.Queue.{
  Tables, Claim, queue_task, fetch_pending_tasks, submit_task_result, reclaim_stale_tasks,
}

pub data Call : Type 0 where
  queues : String → String → String → Option String → ℕ → Call
  polls : String → ℕ → Call
  submits : ℕ → String → String → ℕ → Call
  reclaims : ℕ → ℕ → ℕ → ℕ → Call

abbrev pub empty : Tables
empty = record { tasks = []; results = []; next_task = 1; next_result = 1 }

abbrev pub ids : List Claim → List ℕ
ids cs = map (λ (c : Claim). c.id) cs

-- the tables after a call, and what it handed out
unfoldable pub step : Tables → Call → List ℕ × Tables
step db (queues host command kind run_as now) = ([], (queue_task host command kind run_as now db).1)
step db (polls host now) = let (cs, db') = fetch_pending_tasks host now db in (ids cs, db')
step db (submits task host result now) = ([], (submit_task_result task host result now db).1)
step db (reclaims days timeout now later) = ([], (reclaim_stale_tasks days timeout now later db).1)

unfoldable pub play : List Call → List ℕ → Tables → List ℕ × Tables
unfolding step
play [] delivered db = (delivered, db)
play (c ∷ cs) delivered db = let (new, db') = step db c in play cs (delivered ++ new) db'
