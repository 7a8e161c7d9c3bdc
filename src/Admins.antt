-- ===== src/Admins.antt =====
-- backend/db.py, backend/auth.py, backend/app.py: the administrators, the gates on their sessions, and
-- the routes that change them.
mod Table
mod Counts
mod Gate
mod Policy
mod Routes
mod Sso
mod Serve
mod Change
mod Refines
mod Kept
mod Allowed
mod Effects
mod Revokes
mod Names
mod Tests
