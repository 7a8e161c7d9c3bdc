-- ===== src/Address.antt =====
-- backend/self_address.py: the address that the controller is reached at.
mod Sightings
mod History
mod Evidence
mod Tests
