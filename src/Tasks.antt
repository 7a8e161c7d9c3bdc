-- ===== src/Tasks.antt =====
-- backend/db.py: the command queue, tables `agent_tasks` and `agent_results`. Each function is one
-- transaction of the single SQLite writer, so it is a function on the two tables. A reading of the
-- clock is an argument, in a fixed unit that is never negative.
pub mod Queue
pub mod History
pub mod Counts
pub mod Delivery
pub mod Settled
mod Tests
