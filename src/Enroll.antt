-- ===== src/Enroll.antt =====
-- backend/db.py, the inventory of agents and the enrollment tokens, and backend/app.py, `enroll` and
-- `verify_agent`. The inventory and the tokens are tables with one row for each key, so they are
-- dictionaries. Time is a number that is never negative.
pub mod Inventory
pub mod Token
pub mod Handler
pub mod Adoption
pub mod Takeover
pub mod Admission
pub mod ClaimedRows
pub mod SingleUse
pub mod Rate
mod Tests
