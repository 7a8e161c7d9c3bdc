-- ===== src/Schedules.antt =====
-- webgui/schedules.py, and the scheduler and the routes on `/api/schedules` of webgui/server.py.
mod Clock
mod Least
mod Store
mod Tick
mod Fixed
mod Once
mod Routes
mod Freeform
mod Tests
