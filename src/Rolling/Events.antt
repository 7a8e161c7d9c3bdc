-- ===== src/Rolling/Events.antt =====
-- The vocabulary of webgui/rolling.py: phases, states, events, and what a provider answers.
use sysible_controller.Prelude.{ℕ, String, Bool, List}

-- PHASES
pub data Phase : Type 0 where
  drain act settle health undrain : Phase

-- OK, FAILED, REFUSED, CANCELLED
pub data RunState : Type 0 where
  done failed refused cancelled : RunState

-- the two of the four that `run` emits
pub data Status : Type 0 where
  fine error : Status

-- The texts that `run` composes, by what they are composed of. `text` is a provider's own.
pub data Detail : Type 0 where
  text : String → Detail
  no_members none_healthy by_operator : Detail
  degraded : ℕ → ℕ → List String → Detail
  too_few : List String → ℕ → ℕ → ℕ → Detail
  not_drained not_acted never_back not_healthy not_returned : String → String → Detail
  rolled : ℕ → ℕ → Detail

pub record Event : Type 0 where
  pub host : String
  pub phase : Phase
  pub status : Status
  pub detail : Detail
  pub ts : ℕ

-- What a callable does: it answers `(ok, detail)`, or raises, and then this is the text
-- `type: message` of the exception.
pub data Outcome : Type 0 where
  returned : Bool → String → Outcome
  raised : String → Outcome
