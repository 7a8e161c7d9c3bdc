-- ===== src/Pools.antt =====
-- webgui/pools.py: the pools that the rolling maintenance works on.
mod Store
mod Valid
mod Tests
