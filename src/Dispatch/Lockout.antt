-- ===== src/Dispatch/Lockout.antt =====
-- Who gets work and whose results count.
use sysible_controller.Prelude.{
  ℕ, ◌≤◌, ◌≡◌, ◌≢◌, ◌⊎◌, refl, String, Bool, true, false, ◌||◌, Option, none, some, List, [], Dict,
  ◌==◌, arith, Bool-cases, inl, inr, nat_eq, count_where, is_some,
}
use sysible_controller.Enroll.Inventory.{
  Agent, Denial, verify_agent, is_agent_revoked, agent_exists,
}
use sysible_controller.Tasks.Queue.{Tables, done, submit_task_result, get_task_host, is_out, finish}
use sysible_controller.Tasks.Settled.{update_where_none}
use sysible_controller.Integrity.State.{is_quarantined}
use sysible_controller.Dispatch.Routes.{
  Site, Handed, Polled, Posted, tasks, recorded, is_owner, header_or_query, poll_verified,
  poll_denied, poll_agent_tasks, post_verified, post_denied, post_task_result,
}

-- the work in an answer
abbrev pub work : Polled → List Handed
work (tasks handed) = handed
work _ = []

-- What an agent that is locked out gets, and what it changes.
abbrev pub IsLockedOut : Site → Polled × Site → Type 0
IsLockedOut s (answer, s') =
    (work answer ≡ [])
    × (s'.tables ≡ s.tables)
    × (s'.become ≡ s.become)
    × (s'.want_root ≡ s.want_root)

module _ (digest : String → String) where
  poll_denied-IsLockedOut :
      (why : Option Denial) (host_id : String) (now : ℕ) (s : Site)
      → (is_some why || is_quarantined host_id s.integrity) ≡ true
      → IsLockedOut s (poll_denied digest why host_id now s)
  unfolding poll_denied poll_verified
  poll_denied-IsLockedOut none host_id now s h = rw h (refl, refl, refl, refl)
  poll_denied-IsLockedOut (some why) host_id now s h = (refl, refl, refl, refl)

  revoked-denied :
      (host_id secret : String) (agents : Dict Agent)
      → is_agent_revoked host_id agents ≡ true
      → is_some (verify_agent digest host_id secret agents).0 ≡ true
  unfolding verify_agent
  revoked-denied host_id secret agents h = elim (Bool-cases (agent_exists host_id agents)) [
    | inl there ↦ rw (there, h) refl
    | inr gone ↦ rw gone refl
  ]

  -- The lockout. A poll in the name of a host that is revoked or in quarantine, whatever secrets it
  -- presents, is handed no work, and leaves the queue and the held passwords as they were: what waits
  -- for the host waits on.
  pub poll-IsLockedOut :
      (host_id secret : String) (header : Option String) (now : ℕ) (s : Site)
      → (is_agent_revoked host_id s.agents || is_quarantined host_id s.integrity) ≡ true
      → IsLockedOut s (poll_agent_tasks digest host_id secret header now s)
  unfolding poll_agent_tasks
  poll-IsLockedOut host_id secret header now s h =
      let presented = header_or_query header secret in
      let verified = verify_agent digest host_id presented s.agents in
      elim (Bool-cases (is_agent_revoked host_id s.agents)) [
        | inl revoked ↦
            let why = revoked-denied host_id presented s.agents revoked in
            poll_denied-IsLockedOut verified.0 host_id now (record s { agents = verified.1 })
              (ground (arith, why))
        | inr stands ↦
            poll_denied-IsLockedOut verified.0 host_id now (record s { agents = verified.1 })
              (ground (arith, stands, h))
      ]

  -- What a post in the name of a host may do. Either its result is recorded, the task being queued for the host
  -- and handed out and not answered yet, or it is not, and the tables are as they were.
  abbrev pub IsOwned : String → ℕ → String → ℕ → Tables → Posted × Bool × Site → Type 0
  IsOwned host_id task_id result now db (answer, enables, s') =
      ((answer ≡ recorded)
        × (is_owner host_id (get_task_host task_id db) ≡ true)
        × (count_where (is_out task_id) db.tasks ≡ 1)
        × (submit_task_result task_id host_id result now db ≡ (true, s'.tables)))
      ⊎ ((answer ≢ recorded) × (s'.tables ≡ db))

  unapplied :
      (task_id : ℕ) (db : Tables)
      → count_where (is_out task_id) db.tasks ≤ 1
      → nat_eq (count_where (is_out task_id) db.tasks) 1 ≡ false
      → count_where (is_out task_id) db.tasks ≡ 0
  unapplied task_id db once missed = ground (arith, once, missed)

  verified-IsOwned :
      (host_id : String) (task_id : ℕ) (result : String) (now : ℕ) (s : Site)
      → count_where (is_out task_id) s.tables.tasks ≤ 1
      → IsOwned host_id task_id result now s.tables
          (post_verified digest host_id task_id result now s)
  unfolding post_verified submit_task_result finish
  verified-IsOwned host_id task_id result now s once =
      elim (Bool-cases (is_owner host_id (get_task_host task_id s.tables))) [
        | inr other ↦ rw other (inr ((λ e. cc e), refl))
        | inl own ↦ elim (Bool-cases (nat_eq (count_where (is_out task_id) s.tables.tasks) 1)) [
          | inl one ↦ rw (own, one) (inl (refl, refl, ground (arith, one), refl))
          | inr missed ↦
              rw (own, missed)
                (inr (
                  (λ e. cc e),
                  rw
                      (update_where_none (is_out task_id) (λ t. record t { status = done })
                        s.tables.tasks (unapplied task_id s.tables once missed))
                      refl,
                ))
        ]
      ]

  -- Who may change the tables, and how, where `same` is whether the host in the path is the one in the body: the host in the path is the host in the body, it is verified with the secret
  -- in the body, and its result is recorded, or the tables are as they were.
  abbrev pub IsPosted :
      Bool → String → String → ℕ → String → ℕ → Site → Posted × Bool × Site → Type 0
  IsPosted same body_host_id secret task_id result now s o =
      ((same ≡ true)
        × ((verify_agent digest body_host_id secret s.agents).0 ≡ none)
        × (o.0 ≡ recorded)
        × (is_owner body_host_id (get_task_host task_id s.tables) ≡ true)
        × (count_where (is_out task_id) s.tables.tasks ≡ 1)
        × (submit_task_result task_id body_host_id result now s.tables ≡ (true, o.2.tables)))
      ⊎ ((o.0 ≢ recorded) × (o.2.tables ≡ s.tables))

  denied-IsPosted :
      (why : Option Denial) (body_host_id secret : String) (task_id : ℕ) (result : String) (now : ℕ)
      (s : Site)
      → (verify_agent digest body_host_id secret s.agents).0 ≡ why
      → count_where (is_out task_id) s.tables.tasks ≤ 1
      → IsPosted true body_host_id secret task_id result now s (
          post_denied digest why body_host_id task_id result now
            (record s { agents = (verify_agent digest body_host_id secret s.agents).1 }))
  unfolding post_denied
  denied-IsPosted none body_host_id secret task_id result now s passes once =
      elim (verified-IsOwned body_host_id task_id result now
        (record s { agents = (verify_agent digest body_host_id secret s.agents).1 }) once) [
          | inl (e, own, one, submitted) ↦ inl (refl, passes, e, own, one, submitted)
          | inr kept ↦ inr kept
        ]
  denied-IsPosted (some why) body_host_id secret task_id result now s passes once =
      inr ((λ e. cc e), refl)

  -- Whose results count. Where no two tasks have the same id, a post changes the tables only where the host in the
  -- path is the host in the body, it is verified with the secret in the body, the task was queued for it, and the
  -- task is handed out and not answered yet. Then the answer is that the result is recorded, and the tables are those
  -- with the result submitted. Every other post leaves both tables as they were and does not answer so.
  pub post-recorded :
      (host_id body_host_id secret : String) (task_id : ℕ) (result : String) (now : ℕ) (s : Site)
      → count_where (is_out task_id) s.tables.tasks ≤ 1
      → IsPosted
          (host_id == body_host_id)
          body_host_id
          secret
          task_id
          result
          now
          s
          (post_task_result digest host_id body_host_id secret task_id result now s)
  unfolding post_task_result
  post-recorded host_id body_host_id secret task_id result now s once =
      elim (Bool-cases (host_id == body_host_id)) [
        | inr other ↦ rw other (inr ((λ e. cc e), refl))
        | inl same ↦ rw same (
            denied-IsPosted (verify_agent digest body_host_id secret s.agents).0 body_host_id secret
              task_id result now s refl once)
      ]
