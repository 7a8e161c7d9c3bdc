-- ===== src/Rolling/Refusal.antt =====
-- RULE 5 of webgui/rolling.py: which pools `run` refuses to start on, and that a refused run has
-- touched nothing.
use sysible_controller.Prelude.{
  ℕ, ◌+◌, ◌≤◌, ◌<◌, ◌≡◌, ◌≢◌, refl, String, Bool, false, Option, none, some, List, [], ◌∷◌, length,
  Dict, insert, lookup, arith,
}
use sysible_controller.Rolling.Events.{RunState, Phase, Status, Detail, Event, Outcome}
use sysible_controller.Rolling.Base.{Pool, Hooks, healthy_of, probe_all, verdict, safe}
use sysible_controller.Rolling.Run.{Report, run, proceed, refuse, result, emit}

length-insert-le :
    (k : String) (ok : Bool) (states : Dict Bool) → length (insert k ok states) ≤ length states + 1
unfolding insert
length-insert-le k ok [] = omega arith
length-insert-le k ok ((i, b) ∷ states) = ground (arith, length-insert-le k ok states)

length-probe_all-le :
    {W : Type 0} (health : String → W → Outcome × W) (members : List String) (states : Dict Bool)
    (w : W)
    → length (probe_all health members states w).0 ≤ length states + length members
unfolding probe_all
length-probe_all-le health [] states w = omega arith
length-probe_all-le health (h ∷ hs) states w =
    let (answer, w') = health h w in
    omega (
      arith,
      length-probe_all-le health hs (insert h (safe answer).0 states) w',
      length-insert-le h (safe answer).0 states,
    )

length-healthy_of-le : (states : Dict Bool) → length (healthy_of states) ≤ length states
unfolding healthy_of
length-healthy_of-le [] = omega arith
length-healthy_of-le ((k, ok) ∷ states) = ground (arith, length-healthy_of-le states)

healthy_of-lt :
    (h : String) (states : Dict Bool)
    → lookup h states ≡ some false
    → length (healthy_of states) < length states
unfolding healthy_of lookup
healthy_of-lt h [] e = absurd (cc)
healthy_of-lt h ((k, ok) ∷ states) e =
    ground (arith, length-healthy_of-le states, healthy_of-lt h states)

verdict-degraded :
    (members : List String) (states : Dict Bool)
    → length (healthy_of states) < length members
    → verdict members false states ≢ none
unfolding verdict
verdict-degraded members states short = ground arith

module _ {W : Type 0} (pool : Pool W) (hooks : Hooks W) (members : List String) (mu : ℕ) (mh : ℕ)
    (w : W) where
  -- the entry of a refusal at `ts`
  abbrev pub refusal : Detail → ℕ → Event
  refusal why ts = record {
    host = "";
    phase = Phase.drain;
    status = Status.error;
    detail = why;
    ts = ts;
  }

  -- The report of a refusal for `v` at `ts`: its reason, nobody done or drained, and a log of one entry.
  abbrev pub IsRefusal : Option Detail → ℕ → Report W → Type 0
  IsRefusal v ts r =
      (why : Detail) × (v ≡ some why)
      × (r.state ≡ RunState.refused)
      × (r.detail ≡ why)
      × (r.done ≡ [])
      × (r.drained ≡ [])
      × (r.events ≡ refusal why ts ∷ [])

  refused :
      (v : Option Detail) (healthy : List String) (w' : W)
      → v ≢ none
      → IsRefusal v (hooks.time w') (proceed pool hooks members mu mh v healthy w')
  unfolding proceed refuse result emit
  refused none healthy w' h = absurd (h refl)
  refused (some why) healthy w' h = (why, refl, refl, refl, refl, refl, refl)

  -- RULE 5. Where the preflight found any member unhealthy, and the operator has not said to
  -- proceed while degraded, the run is refused for the reason that the preflight gives: no member is
  -- done, none is drained, and the log holds one entry, the refusal with that reason, at the time
  -- after the preflight.
  pub run_refuses_degraded :
      (h : String)
      → lookup h (probe_all pool.health members [] w).0 ≡ some false
      → let (states, w') = probe_all pool.health members [] w in
        IsRefusal
          (verdict members false states)
          (hooks.time w')
          (run pool hooks members mu false mh w)
  unfolding run
  run_refuses_degraded h unhealthy =
      let states : Dict Bool = (probe_all pool.health members [] w).0 in
      refused (verdict members false states) (healthy_of states) _ (
        verdict-degraded members states (
          omega (
            arith,
            healthy_of-lt h states unhealthy,
            length-probe_all-le pool.health members [] w,
          )))
