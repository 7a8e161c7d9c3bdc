-- ===== src/Dispatch.antt =====
-- backend/app.py: the two routes of an agent that touch the command queue, `poll_agent_tasks` and
-- `post_task_result`, over the inventory, the queue and the integrity records.
mod Routes
mod Lockout
mod TakeOnce
mod Tests
