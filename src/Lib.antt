-- ===== src/Lib.antt =====
-- Sysible Controller: a verification library of parts of the controller.
--
-- The controller manages a fleet of hosts. An agent on every host polls the backend for commands and
-- reports their results and a measurement of its own files; the web console starts work on hosts.
-- Eleven parts are modelled, and each is used by the others only through its functions.
--
-- Rolling (webgui/rolling.py). `run` takes a pool of hosts through maintenance, group by group. Its
-- callables `drain`, `undrain`, `act`, `health`, `settle`, the listener, the poll for a cancellation
-- and the clock are parameters over a world of any type, so that a callable may answer differently
-- at each call and may raise. Rolling/Base has `preflight`, `batches` and the monad of early returns,
-- Rolling/Run the phases of `run` in their order, Rolling/Replay reads the serving and the excluded
-- hosts off an event log. The texts that `run` composes are values of `Detail`. A group is never
-- empty, so `group[0]` is the first of it. `batches` counts down the length of the list, and each
-- group takes one member at least.
--
-- Tasks (backend/db.py, the tables `agent_tasks` and `agent_results`). A call is one transaction of
-- SQLite, so it is a function on the two tables: Tasks/Queue. A history is a list of calls:
-- Tasks/History. The times are numbers and never negative.
--
-- Integrity (backend/agent_integrity.py). The state file is a dictionary from a host to its record,
-- Integrity/State, and every public function holds one lock, so that it is a function on the
-- dictionary. `_save` either replaces the file or leaves it, by a Boolean argument, and in the latter
-- case `evaluate` and `note_missing` answer an error, the value `failed`. Hashes and versions are texts. `compare` answers
-- `none` where it raises, on a `files` that is no dictionary.
-- Integrity/Evaluate has the two paths of a heartbeat, and Integrity/History a list of heartbeats.
--
-- Enroll (backend/db.py, tables `agents` and `enroll_tokens`; backend/app.py, `verify_agent` and
-- `enroll`; backend/edition.py). Enroll/Inventory has the credentials of the hosts, Enroll/Token the
-- tokens, and Enroll/Handler `enroll` from its lock to the release of it: a request is one function
-- on the tables and on the state file of Integrity, whose `rebaseline` it calls and whose save is
-- taken to succeed. SHA-256, `str.strip` and the random secret are parameters.
-- Rows with one hostname keep the order of the table in `list_agents`. Enroll/Rate has the flood guard.
-- The other guards before the lock, which only refuse, and the SSH record and the log after it are
-- not modelled.
--
-- Login (backend/db.py, tables `login_throttle`, `admin_tokens`, `administrators`). Login/Throttle has
-- the lockout after failed logins, with a clock in microseconds, and Login/Session the sessions,
-- which are checked against the live account whenever they are used.
--
-- Dispatch (backend/app.py, `poll_agent_tasks` and `post_task_result`). Dispatch/Routes composes the
-- three parts that an agent's request meets: `verify_agent`, the quarantine, and the command queue,
-- with the passwords that are held in memory for single tasks.
--
-- Audit (backend/db.py, tables `activity_log`, `admin_audit_log`, `audit_chain_head`). Audit/Payload has
-- the bytes that a row's hash covers, Audit/Chain the walk that both verifications do, and Audit/Log the
-- rows, the appends, the trim and the mark. SHA-256, HMAC, UTF-8, the format of a time and the patterns of the
-- redaction are parameters, and a time is whole. A run has one key, or gets one after the first rows and keeps it;
-- a key that is lost or replaced is not modelled. A payload's field is shorter than 4 GB. The backfill of rows
-- that are older than the chain is not modelled.
--
-- Admins (backend/db.py, table `administrators`; backend/auth.py; backend/app.py, the routes on
-- `/admin/administrators`, and `ensure_sso_account`). Admins/Table has the writes, on the two tables of
-- Login/Session; Admins/Gate the gates; Admins/Routes the five routes that change accounts, the reset of a
-- password included, Admins/Sso `ensure_sso_account`, and Admins/Serve a request with its
-- gates before its route; Admins/Policy the checks on passwords and names. What a route hands to
-- `log_admin_audit` is part of its outcome. `hash_password`, `str.strip` and `str.lower` are parameters. A request is
-- one step, and requests are taken one after the other: that two handlers run at the same time is not modelled.
-- The routes that only read, the login, the changes of one's own credentials, and the route of the single sign-on
-- that calls `ensure_sso_account` are not modelled.
--
-- Schedules (webgui/schedules.py; webgui/server.py, `_scheduler_loop` and the routes on `/api/schedules`).
-- Schedules/Clock has the arithmetic of `compute_next_run` in microseconds, Schedules/Store the jobs and every
-- operation on them, Schedules/Tick a pass of the scheduler, and Schedules/Routes the routes with their guard. The
-- two conversions of the datetime library, with the fold of a repeated hour, `str.strip`, `str.split` and `int` are parameters. What a run answers,
-- and whether the file can be written, is given with each pass. A weekday is not negative.
--
-- Pools (webgui/pools.py). Pools/Store has the file of pools and `validate`, and Pools/Valid what it gives the rolling
-- maintenance: a roll order without repetition, and limits that fit it. A request's values have their
-- types, a number being maybe no number or below 0. `str.strip`, `int` and the word characters are parameters.
--
-- Address (backend/self_address.py). Address/Sightings has the tally of the addresses that requests arrive at,
-- with `observe`, `prune` and `assess`, and Address/History a history of requests behind it. Times are whole seconds. What
-- the library `ipaddress` decides, in `_normalise` and `is_routable_for_fleet`, is a parameter. `heal`
-- and the storing of the tally are not modelled.
--
-- Prelude has what they share: the Boolean tests, lists over the native numbers, Python's sets of
-- strings and dictionaries, and `sorted`.
--
-- Not modelled: the other HTTP routes, the console's pages, the builders of shell commands, the agent's
-- own loop, terminals, TLS and the file system, which are input and output or depend on tools that
-- are not in this repository.
pub mod Prelude
pub mod Pools
pub mod Rolling
pub mod Schedules
pub mod Tasks
pub mod Integrity
pub mod Enroll
pub mod Login
pub mod Dispatch
pub mod Address
pub mod Admins
pub mod Audit
