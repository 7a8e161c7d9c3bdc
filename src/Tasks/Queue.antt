-- ===== src/Tasks/Queue.antt =====
-- backend/db.py: `queue_task`, `fetch_pending_tasks`, `submit_task_result`, `reclaim_stale_tasks`,
-- `_prune_terminal_tasks` and the lookups by task id.
use sysible_controller.Prelude.{
  ℕ, zero, suc, ◌+◌, ◌*◌, String, Bool, true, false, not, ◌&&◌, Option, none, some, List, [], ◌∷◌,
  ◌++◌, select, any, count_where, update_where, ltb, leb, nat_eq, ◌==◌, if◌then◌else◌,
}

-- the `status` column
pub data Status : Type 0 where
  pending dispatched done timed_out : Status

pub record Task : Type 0 where
  pub id : ℕ
  pub host_id : String
  pub command : String
  pub kind : String
  pub status : Status
  pub created : Option ℕ
  pub handed_out : Option ℕ
  pub run_as : Option String

pub record Result : Type 0 where
  pub id : ℕ
  pub task_id : ℕ
  pub host_id : String
  pub result : String
  pub completed : ℕ

-- The two tables; `next_task` and `next_result` are what AUTOINCREMENT gives next.
pub record Tables : Type 0 where
  pub tasks : List Task
  pub results : List Result
  pub next_task : ℕ
  pub next_result : ℕ

abbrev pub is_pending : Task → Bool
is_pending t = elim t.status [ pending ↦ true | _ ↦ false ]

abbrev pub is_dispatched : Task → Bool
is_dispatched t = elim t.status [ dispatched ↦ true | _ ↦ false ]

-- `status IN ('done','timed_out')`
abbrev pub is_terminal : Task → Bool
is_terminal t = elim t.status [ done ↦ true | timed_out ↦ true | _ ↦ false ]

-- the row inserted, and its id
unfoldable pub queue_task : String → String → String → Option String → ℕ → Tables → ℕ × Tables
queue_task host_id command kind run_as now db =
    let task : Task = record {
      id = db.next_task;
      host_id = host_id;
      command = command;
      kind = kind;
      status = pending;
      created = some now;
      handed_out = none;
      run_as = run_as;
    } in
    (db.next_task, record db { tasks = db.tasks ++ task ∷ []; next_task = suc db.next_task })

-- what an agent gets of a row, `RETURNING id, command, kind, run_as`
pub record Claim : Type 0 where
  pub id : ℕ
  pub command : String
  pub kind : String
  pub run_as : Option String

abbrev pub claim_of : Task → Claim
claim_of t = record { id = t.id; command = t.command; kind = t.kind; run_as = t.run_as }

unfoldable pub insert_by_id : Claim → List Claim → List Claim
insert_by_id c [] = c ∷ []
insert_by_id c (d ∷ ds) = if leb c.id d.id then c ∷ d ∷ ds else d ∷ insert_by_id c ds

-- `rows.sort(key=lambda r: r["id"])`, of the claims on the rows that pass the test
unfoldable pub claims : (Task → Bool) → List Task → List Claim
unfolding insert_by_id
claims test [] = []
claims test (t ∷ ts) =
    let rest = claims test ts in if test t then insert_by_id (claim_of t) rest else rest

-- `host_id=? AND status='pending'`
abbrev pub is_ready : String → Task → Bool
is_ready host_id t = t.host_id == host_id && is_pending t

unfoldable pub fetch_pending_tasks : String → ℕ → Tables → List Claim × Tables
unfolding claims
fetch_pending_tasks host_id now db = (
  claims (is_ready host_id) db.tasks,
  record db {
    tasks =
        update_where (is_ready host_id)
          (λ t. record t { status = dispatched; handed_out = some now }) db.tasks;
  },
)

-- `id=? AND status='dispatched'`
abbrev pub is_out : ℕ → Task → Bool
is_out task_id t = nat_eq t.id task_id && is_dispatched t

-- `UPDATE agent_tasks SET status=? WHERE id=? AND status='dispatched'`, and if it changed one row,
-- `INSERT INTO agent_results`
unfoldable pub finish : Status → ℕ → String → String → ℕ → Tables → Bool × Tables
finish status task_id host_id result now db =
    let applied = nat_eq (count_where (is_out task_id) db.tasks) 1 in
    let row : Result = record {
      id = db.next_result;
      task_id = task_id;
      host_id = host_id;
      result = result;
      completed = now;
    } in
    let tasks = update_where (is_out task_id) (λ t. record t { status = status }) db.tasks in
    (
      applied,
      if applied
          then record db {
            tasks = tasks;
            results = db.results ++ row ∷ [];
            next_result = suc db.next_result;
          }
          else record db { tasks = tasks },
    )

unfoldable pub submit_task_result : ℕ → String → String → ℕ → Tables → Bool × Tables
unfolding finish
submit_task_result task_id host_id result now db = finish done task_id host_id result now db

-- `status='dispatched' AND dispatched IS NOT NULL AND dispatched < cutoff`, the cutoff being
-- `timeout` before `now`
abbrev pub is_stale : ℕ → ℕ → Task → Bool
is_stale timeout now t =
    is_dispatched t && (elim t.handed_out [ none ↦ false | some at ↦ ltb (at + timeout) now ])

-- the synthetic result
abbrev pub lost_message : String
lost_message =
    "{\"stdout\": \"\", \"stderr\": \"[sysible] Task timed out: the host was handed this command but never reported a result. It may or may not have run \\u2014 re-queue it if needed.\", \"returncode\": -1}"

-- the loop over the stale rows
unfoldable pub reclaim_each : List Task → ℕ → ℕ → Tables → ℕ × Tables
unfolding finish
reclaim_each [] now reclaimed db = (reclaimed, db)
reclaim_each (t ∷ stale) now reclaimed db =
    let (applied, db') = finish timed_out t.id t.host_id lost_message now db in
    reclaim_each stale now (if applied then reclaimed + 1 else reclaimed) db'

-- `status IN ('done','timed_out') AND created IS NOT NULL AND created < cutoff`
abbrev pub is_expired : ℕ → ℕ → Task → Bool
is_expired days now t =
    is_terminal t && (elim t.created [ none ↦ false | some at ↦ ltb (at + days * 86400) now ])

-- `task_id IN (SELECT id FROM agent_tasks WHERE ...)`
abbrev pub belongs_to : List Task → Result → Bool
belongs_to tasks r = any (λ (t : Task). nat_eq t.id r.task_id) tasks

-- `retention_days` is TASK_RETENTION_DAYS; 0 stands for every value that disables pruning
unfoldable pub prune_terminal_tasks : ℕ → ℕ → Tables → Tables
prune_terminal_tasks zero now db = db
prune_terminal_tasks (suc days) now db =
    let old = select (is_expired (suc days) now) db.tasks in
    record db {
      results = select (λ r. not (belongs_to old r)) db.results;
      tasks = select (λ t. not (is_expired (suc days) now t)) db.tasks;
    }

-- `now` is read for the cutoff, and `later` for the results and the pruning
unfoldable pub reclaim_stale_tasks : ℕ → ℕ → ℕ → ℕ → Tables → ℕ × Tables
unfolding reclaim_each prune_terminal_tasks
reclaim_stale_tasks retention_days timeout now later db =
    let (reclaimed, db') = reclaim_each (select (is_stale timeout now) db.tasks) later 0 db in
    (reclaimed, prune_terminal_tasks retention_days later db')

unfoldable pub find_task : ℕ → List Task → Option Task
find_task task_id [] = none
find_task task_id (t ∷ ts) = if nat_eq t.id task_id then some t else find_task task_id ts

unfoldable pub get_task_status : ℕ → Tables → Option Status
unfolding find_task
get_task_status task_id db = elim (find_task task_id db.tasks) [
  | none ↦ none
  | some t ↦ some t.status
]

unfoldable pub get_task_kind : ℕ → Tables → Option String
unfolding find_task
get_task_kind task_id db = elim (find_task task_id db.tasks) [ none ↦ none | some t ↦ some t.kind ]

unfoldable pub get_task_host : ℕ → Tables → Option String
unfolding find_task
get_task_host task_id db = elim (find_task task_id db.tasks) [
  | none ↦ none
  | some t ↦ some t.host_id
]

abbrev pub later_result : Result → Option Result → Result
later_result r none = r
later_result r (some r') = if leb r'.completed r.completed then r else r'

abbrev pub text_of : Option Result → Option String
text_of none = none
text_of (some r) = some r.result

-- `ORDER BY completed DESC LIMIT 1`, of rows that tie the first of the table
unfoldable pub latest_result : ℕ → List Result → Option Result
latest_result task_id [] = none
latest_result task_id (r ∷ rs) =
    let rest = latest_result task_id rs in
    if nat_eq r.task_id task_id then some (later_result r rest) else rest

-- a task's status and, once it is terminal, the text of its latest result
unfoldable pub get_task_result : ℕ → Tables → Option (Status × Option String)
unfolding find_task latest_result
get_task_result task_id db = elim (find_task task_id db.tasks) [
  | none ↦ none
  | some t ↦
      some (t.status, if is_terminal t then text_of (latest_result task_id db.results) else none)
]
