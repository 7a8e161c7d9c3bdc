-- ===== src/Admins/Effects.antt =====
-- What a refused request leaves, and which sessions a served one ends.
use sysible_controller.Prelude.{ℕ, ◌≡◌}
use sysible_controller.Login.Session.{Accounts}
use sysible_controller.Admins.Policy.{Policy}
use sysible_controller.Admins.Routes.{Outcome, error}

-- an outcome that is refused has the table that it began with
abbrev IsIdle : Accounts → Outcome → Type 0
IsIdle db o = (code : ℕ) → o.answer ≡ error code → o.db.administrators ≡ db.administrators
