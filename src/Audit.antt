-- ===== src/Audit.antt =====
-- backend/db.py: the tamper-evident logs, tables `activity_log`, `admin_audit_log` and
-- `audit_chain_head`.
mod Payload
mod Chain
mod Log
mod Links
mod Intact
mod History
mod Sound
mod Reached
mod Binding
mod Tests
