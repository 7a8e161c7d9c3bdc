-- ===== src/Dispatch/TakeOnce.antt =====
-- The passwords held in memory are delivered once.
