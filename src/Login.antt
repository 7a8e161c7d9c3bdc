-- ===== src/Login.antt =====
-- backend/db.py: the login throttle and the sessions of administrators, tables `login_throttle`,
-- `admin_tokens` and `administrators`. Time is a number that is never negative.
mod Throttle
mod Lockout
pub mod Session
mod Steps
pub mod Revocation
mod Tests
