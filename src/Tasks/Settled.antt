-- ===== src/Tasks/Settled.antt =====
-- What one call of the command queue settles for good.
use sysible_controller.Prelude.{
  ℕ, ◌≡◌, refl, String, Bool, false, some, List, [], ◌∷◌, count_where, update_where, nat_eq, arith,
  Bool-cases, inl, inr,
}
use sysible_controller.Tasks.Queue.{
  Status, done, dispatched, Task, Tables, is_ready, is_out, fetch_pending_tasks, claims, finish,
  submit_task_result,
}
use sysible_controller.Tasks.Counts.{out-finish, IsFinal}

pub update_where_none :
    {A : Type 0} (test : A → Bool) (f : A → A) (xs : List A)
    → count_where test xs ≡ 0
    → update_where test f xs ≡ xs
update_where_none test f [] e = refl
update_where_none test f (x ∷ xs) e = ground (arith, update_where_none test f xs)

claims_none : (test : Task → Bool) (ts : List Task) → count_where test ts ≡ 0 → claims test ts ≡ []
unfolding claims
claims_none test [] e = refl
claims_none test (t ∷ ts) e = ground (arith, claims_none test ts)

ready-fetch :
    (host : String) (now : ℕ) (ts : List Task)
    → count_where (is_ready host) (
        update_where
          (is_ready host)
          (λ t. record t { status = dispatched; handed_out = some now })
          ts)
      ≡ 0
ready-fetch host now [] = refl
ready-fetch host now (t ∷ ts) = ground (arith, ready-fetch host now ts)

-- Two polls of one host in a row: the second gets nothing, whenever it comes, and changes nothing.
pub fetch_again :
    (host : String) (now later : ℕ) (db : Tables)
    → fetch_pending_tasks host later (fetch_pending_tasks host now db).1
      ≡ ([], (fetch_pending_tasks host now db).1)
unfolding fetch_pending_tasks
fetch_again host now later db =
    let nothing = ready-fetch host now db.tasks in
    rw (claims_none (is_ready host) _ nothing, update_where_none (is_ready host) _ _ nothing)

out_after_finish :
    (st : Status) (k : ℕ) (ts : List Task)
    → IsFinal st
    → count_where (is_out k) (update_where (is_out k) (λ t. record t { status = st }) ts) ≡ 0
out_after_finish st k ts f = ground (arith, out-finish st k k ts f)

finish_again :
    (st st' : Status) (k : ℕ) (host host' result result' : String) (now later : ℕ) (db : Tables)
    → IsFinal st
    → finish st' k host' result' later (finish st k host result now db).1
      ≡ (false, (finish st k host result now db).1)
unfolding finish
finish_again st st' k host host' result result' now later db f =
    let nothing = out_after_finish st k db.tasks f in
    elim (Bool-cases (nat_eq (count_where (is_out k) db.tasks) 1)) [
      | inl e ↦ rw (e, nothing, update_where_none (is_out k) _ _ nothing)
      | inr e ↦ rw (e, nothing, update_where_none (is_out k) _ _ nothing)
    ]

-- Submission is idempotent. A second result for a task, whatever it says, is not applied, and
-- leaves both tables as the first result left them.
pub submit_again :
    (task : ℕ) (host host' result result' : String) (now later : ℕ) (db : Tables)
    → submit_task_result task host' result' later (submit_task_result task host result now db).1
      ≡ (false, (submit_task_result task host result now db).1)
unfolding submit_task_result
submit_again task host host' result result' now later db =
    finish_again done done task host host' result result' now later db tt
