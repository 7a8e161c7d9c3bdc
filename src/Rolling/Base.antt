-- ===== src/Rolling/Base.antt =====
-- webgui/rolling.py: `preflight`, `batches`, `_safe`, the local state of `run`, and the monad in
-- which its phases are written.
use sysible_controller.Prelude.{
  ℕ, zero, suc, String, Bool, true, false, not, ◌&&◌, Option, none, some, List, [], ◌∷◌, length,
  take, drop, select, Dict, insert, lookup, ltb, nat_eq, if◌then◌else◌,
}
use sysible_controller.Rolling.Events.{
  Status, Event, Detail, RunState, Outcome, returned, raised, fine, error,
}

-- `class Pool`: each provider answers `(ok, detail)` or raises.
pub record Pool (W : Type 0) : Type 0 where
  pub drain : String → W → Outcome × W
  pub undrain : String → W → Outcome × W
  pub act : String → W → Outcome × W
  pub health : String → W → Outcome × W
  pub settle : Option (String → W → Outcome × W)

-- What the listener answers or raises is dropped. A poll that raises is `none`.
pub record Hooks (W : Type 0) : Type 0 where
  pub on_event : Option (Event → W → W)
  pub cancelled : Option (W → Option Bool × W)
  pub time : W → ℕ

-- the local variables of `run`
pub record Progress (W : Type 0) : Type 0 where
  pub world : W
  pub events : List Event
  pub healthy_now : List String
  pub finished : List String
  pub left_drained : List String

-- A step goes on with a value, or it is one of the early returns of `run`.
pub data Flow (W A : Type 0) : Type 0 where
  go : A → Progress W → Flow W A
  halt : RunState → Detail → Progress W → Flow W A

infixl 5 ◌>>=◌ ◌>>◌
abbrev pub ◌>>=◌ :
    {W A B : Type 0} → (Progress W → Flow W A) → (A → Progress W → Flow W B) → Progress W → Flow W B
◌>>=◌ m f s = elim (m s) [ go a s' ↦ f a s' | halt state why s' ↦ halt state why s' ]

abbrev pub ◌>>◌ :
    {W A B : Type 0} → (Progress W → Flow W A) → (Progress W → Flow W B) → Progress W → Flow W B
m >> k = m >>= λ _. k

abbrev pub pure : {W A : Type 0} → A → Progress W → Flow W A
pure a s = go a s

-- `_safe`
unfoldable pub safe : Outcome → Bool × String
safe (returned ok detail) = (ok, detail)
safe (raised message) = (false, message)

abbrev pub status : Bool → Status
status true = fine
status false = error

unfoldable pub batches_from : ℕ → ℕ → List String → List (List String)
batches_from zero n members = []
batches_from (suc fuel) n [] = []
batches_from (suc fuel) n (m ∷ ms) = take n (m ∷ ms) ∷ batches_from fuel n (drop n (m ∷ ms))

-- `max(1, int(max_unavailable or 1))`
abbrev pub group_size : ℕ → ℕ
group_size zero = 1
group_size (suc n) = suc n

unfoldable pub batches : List String → ℕ → List (List String)
unfolding batches_from
batches members max_unavailable = batches_from (length members) (group_size max_unavailable) members

-- `[h for h, ok in states.items() if ok]`
unfoldable pub healthy_of : Dict Bool → List String
healthy_of [] = []
healthy_of ((h, ok) ∷ states) = let rest = healthy_of states in if ok then h ∷ rest else rest

module _ {W : Type 0} where
  unfoldable pub probe_all :
      (String → W → Outcome × W) → List String → Dict Bool → W → Dict Bool × W
  unfolding safe insert
  probe_all health [] states w = (states, w)
  probe_all health (h ∷ hs) states w =
      let (answer, w') = health h w in
      let (ok, _) = safe answer in probe_all health hs (insert h ok states) w'

-- `not states[h]`
abbrev is_down : Dict Bool → String → Bool
is_down states h = elim (lookup h states) [ some true ↦ false | _ ↦ true ]

-- `none` when the run may start, else the reason.
unfoldable pub verdict : List String → Bool → Dict Bool → Option Detail
unfolding healthy_of lookup
verdict members allow_degraded states =
    let healthy = healthy_of states in
    if nat_eq (length members) 0
    then some Detail.no_members
    else if nat_eq (length healthy) 0
    then some Detail.none_healthy
    else if ltb (length healthy) (length members) && not allow_degraded
    then some (Detail.degraded (length healthy) (length members) (select (is_down states) members))
    else none
