-- ===== src/Integrity.antt =====
-- backend/agent_integrity.py: the sealed baseline of every host's agent, and its quarantine.
pub mod State
pub mod Evaluate
pub mod Compare
pub mod History
pub mod Tamper
pub mod Silence
mod Tests
