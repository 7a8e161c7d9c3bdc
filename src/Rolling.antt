-- ===== src/Rolling.antt =====
-- webgui/rolling.py: rolling maintenance across a pool of hosts.
-- The providers (drain, act, health, ...), the log listener, the poll for a cancellation and the
-- clock are callables that the console supplies. Each is a function on the state `W` of the world
-- outside, and may answer anything or raise.
pub mod Events
pub mod Base
pub mod Run
pub mod Replay
mod Ends
pub mod Truth
pub mod Complete
pub mod Preflight
pub mod Safety
pub mod Refusal
pub mod Blame
mod Tests
