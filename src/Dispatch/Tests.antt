-- ===== src/Dispatch/Tests.antt =====
-- One host with one task, and the theorems at it.
use sysible_controller.Prelude.{
  arith, ◌≡◌, ◌==◌, refl, none, some, [], ◌∷◌, String, false, lookup, insert,
}
use Prim.Native.String.{◌++◌}
use sysible_controller.Enroll.Inventory.{
  Agent, blank, verify_agent, agent_secret_matches, matches_stored, get_agent_secret,
  is_agent_revoked,
}
use sysible_controller.Tasks.Queue.{
  queue_task, fetch_pending_tasks, claims, insert_by_id, submit_task_result, finish, get_task_host,
  get_task_kind, find_task,
}
use sysible_controller.Tasks.History.{empty}
use sysible_controller.Integrity.State.{no_record, quarantined, is_quarantined, quarantine_of}
use sysible_controller.Dispatch.Routes.{
  Site, Polled, recorded, pop, attach, take_become, take_want_root, poll_verified, poll_denied,
  poll_agent_tasks, post_verified, post_denied, post_task_result,
}
use sysible_controller.Dispatch.Lockout.{
  work, IsLockedOut, IsPosted, poll-IsLockedOut, post-recorded,
}

-- in place of SHA-256
abbrev hashed : String → String
hashed s = "#" ++ s

abbrev web1 : Agent
web1 = record blank { agent_secret = some "#s1" }

abbrev site : Site
site = record {
  agents = ("web1", web1) ∷ [];
  tables = (queue_task "web1" "uptime" "command" (some "alice") 100 empty).1;
  integrity = [];
  become = (1, record { password = "pw"; expiry = 400 }) ∷ [];
  want_root = [];
}

abbrev tampered : Site
tampered = record site { integrity = ("web1", record no_record { status = some quarantined }) ∷ [] }

-- a poll, with all that it calls open
poll : Site → Polled × Site
unfolding poll_agent_tasks poll_denied poll_verified attach take_become take_want_root pop
    verify_agent agent_secret_matches matches_stored get_agent_secret is_agent_revoked queue_task
    fetch_pending_tasks claims insert_by_id submit_task_result finish get_task_host get_task_kind
    find_task is_quarantined quarantine_of post_task_result post_denied post_verified lookup insert
poll s = poll_agent_tasks hashed "web1" "s1" none 110 s

-- The task is handed out with its password, and a result for it is recorded.
handed_out :
    (work (poll site).0
      ≡ record {
        claim = record { id = 1; command = "uptime"; kind = "command"; run_as = some "alice" };
        become_password = some "pw";
        want_root = false;
      }
        ∷ [])
    × ((post_task_result hashed "web1" "web1" "s1" 1 "up" 120 (poll site).1).0 ≡ recorded)
unfolding poll
handed_out = (refl, refl)

poll-IsLockedOut_example :
    IsLockedOut tampered (poll_agent_tasks hashed "web1" "s1" none 110 tampered)
unfolding poll
poll-IsLockedOut_example = poll-IsLockedOut hashed "web1" "s1" none 110 tampered refl

post-recorded_example :
    IsPosted hashed
      ("web1" == "web1")
      "web1"
      "s1"
      1
      "up"
      120
      (poll site).1
      (post_task_result hashed "web1" "web1" "s1" 1 "up" 120 (poll site).1)
unfolding poll
post-recorded_example =
    post-recorded hashed "web1" "web1" "s1" 1 "up" 120 (poll site).1 (omega arith)
