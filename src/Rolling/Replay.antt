-- ===== src/Rolling/Replay.antt =====
-- What a log of webgui/rolling.py says about the pool, read with no look at the run's own state.
use sysible_controller.Prelude.{
  ℕ, zero, suc, String, ◌≡◌, refl, List, [], ◌∷◌, ◌++◌, add, discard, take,
}
use sysible_controller.Rolling.Events.{Phase, Status, Event, fine}

-- the hosts that take traffic, after one more event
abbrev pub serving_after : Phase → Status → String → List String → List String
serving_after Phase.drain fine h hosts = discard h hosts
serving_after Phase.undrain fine h hosts = add h hosts
serving_after _ _ h hosts = hosts

-- the hosts that are out of rotation, after one more event
abbrev pub out_after : Phase → Status → String → List String → List String
out_after Phase.drain fine h hosts = add h hosts
out_after Phase.undrain fine h hosts = discard h hosts
out_after _ _ h hosts = hosts

abbrev pub serve : List String → Event → List String
serve hosts e = serving_after e.phase e.status e.host hosts

abbrev pub exclude : List String → Event → List String
exclude hosts e = out_after e.phase e.status e.host hosts

module _ {ℓ} {S : Type ℓ} (step : S → Event → S) where
  abbrev pub replay : S → List Event → S
  replay s [] = s
  replay s (e ∷ es) = replay (step s e) es

  -- `P` holds before the first event and after each.
  abbrev pub Always {κ} : (S → Type κ) → S → List Event → Type κ
  Always P s [] = P s
  Always P s (e ∷ es) = P s × Always P (step s e) es

  pub replay-snoc :
      (s : S) (es : List Event) (e : Event) → replay s (es ++ e ∷ []) ≡ step (replay s es) e
  replay-snoc s [] e = refl
  replay-snoc s (x ∷ es) e = replay-snoc (step s x) es e

  pub Always-snoc {κ} :
      (P : S → Type κ) (s : S) (es : List Event) (e : Event)
      → Always P s es
      → P (step (replay s es) e)
      → Always P s (es ++ e ∷ [])
  Always-snoc P s [] e h p = (h, p)
  Always-snoc P s (x ∷ es) e h p = (h.0, Always-snoc P (step s x) es e h.1 p)

  pub Always-take {κ} :
      (P : S → Type κ) (s : S) (es : List Event) (n : ℕ) → Always P s es → P (replay s (take n es))
  Always-take P s [] zero h = h
  Always-take P s [] (suc n) h = h
  Always-take P s (e ∷ es) zero h = h.0
  Always-take P s (e ∷ es) (suc n) h = Always-take P (step s e) es n h.1
