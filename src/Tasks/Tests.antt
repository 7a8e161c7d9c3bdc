-- ===== src/Tasks/Tests.antt =====
-- A history of the command queue, and the theorems at it.
use sysible_controller.Prelude.{ℕ, ◌≡◌, ◌≤◌, refl, none, some, take, length, [], ◌∷◌, List, false}
use sysible_controller.Tasks.Queue.{
  Tables, done, timed_out, queue_task, fetch_pending_tasks, claims, insert_by_id,
  submit_task_result, finish, reclaim_stale_tasks, reclaim_each, prune_terminal_tasks,
  get_task_status, find_task,
}
use sysible_controller.Tasks.History.{Call, queues, polls, submits, reclaims, step, play, empty}
use sysible_controller.Tasks.Counts.{occurrences, results_of}
use sysible_controller.Tasks.Delivery.{at_most_once}
use sysible_controller.Tasks.Settled.{fetch_again, submit_again}

-- Two tasks; the host polls twice, reports the first task twice, and the second times out.
abbrev day : List Call
day =
    queues "web1" "uptime" "command" none 100
    ∷ queues "web1" "reboot" "command" none 101
    ∷ polls "web1" 110
    ∷ polls "web1" 120
    ∷ submits 1 "web1" "up" 130
    ∷ submits 1 "web1" "up" 131
    ∷ reclaims 30 600 9000 9001
    ∷ submits 2 "web1" "late" 9002
    ∷ []

-- the tables after the first calls of the day
abbrev after : ℕ → Tables
after n = (play (take n day) [] empty).1

-- what the day leaves: the first task done, with one result, and the second timed out, with one
day_end :
    (get_task_status 1 (after 8) ≡ some done)
    × (get_task_status 2 (after 8) ≡ some timed_out)
    × (length (after 8).results ≡ 2)
unfolding play step queue_task fetch_pending_tasks claims insert_by_id submit_task_result finish
    reclaim_stale_tasks reclaim_each prune_terminal_tasks get_task_status find_task
day_end = (refl, refl, refl)

at_most_once_example :
    (occurrences 1 (play day [] empty).0 ≤ 1)
    × (results_of 1 (play day [] empty).1.results ≤ occurrences 1 (play day [] empty).0)
at_most_once_example = at_most_once 1 day

fetch_again_example :
    fetch_pending_tasks "web1" 120 (fetch_pending_tasks "web1" 110 (after 2)).1
    ≡ ([], (fetch_pending_tasks "web1" 110 (after 2)).1)
fetch_again_example = fetch_again "web1" 110 120 (after 2)

submit_again_example :
    submit_task_result 1 "web1" "down" 131 (submit_task_result 1 "web1" "up" 130 (after 3)).1
    ≡ (false, (submit_task_result 1 "web1" "up" 130 (after 3)).1)
submit_again_example = submit_again 1 "web1" "web1" "up" "down" 130 131 (after 3)
