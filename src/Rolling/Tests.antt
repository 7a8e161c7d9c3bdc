-- ===== src/Rolling/Tests.antt =====
-- Runs of webgui/rolling.py on a pool of three hosts, and the theorems at such runs.
use sysible_controller.Prelude.{
  ℕ, ◌+◌, ◌≤◌, ◌≡◌, refl, ◌==◌, String, true, false, none, some, [], ◌∷◌, List, length, concat, All,
  take, member, sorted, arith, insert, lookup,
}
use sysible_controller.Rolling.Events.{Outcome, returned, raised, RunState}
use sysible_controller.Rolling.Base.{
  Pool, Hooks, group_size, probe_all, verdict, healthy_of, batches, batches_from, safe,
}
use sysible_controller.Rolling.Run.{
  Report, run, proceed, refuse, close, result, roll_groups, roll_group, guard_capacity, maintain,
  drain_phase, act_phase, settle_with, settle_each, health_phase, undrain_phase, record_done,
  out_of_rotation, back_in_rotation, put_back, put_back_one, bail, attempt, emit, call,
  stop_requested,
}
use sysible_controller.Rolling.Replay.{replay, serve, exclude}
use sysible_controller.Rolling.Preflight.{found_healthy, batches-concat-fit}
use sysible_controller.Rolling.Safety.{
  serving_never_below, out_never_above, drained-eq-log, run-done_complete,
}
use sysible_controller.Rolling.Refusal.{IsRefusal, run_refuses_degraded}
use sysible_controller.Rolling.Blame.{blamed_stays_out}

-- The world counts the calls. Every provider answers, but the patch of `bad` raises.
abbrev answers : String → ℕ → Outcome × ℕ
answers h w = (returned true "", w + 1)

abbrev patches : String → String → ℕ → Outcome × ℕ
patches bad h w =
    (elim (h == bad) [ true ↦ raised "OSError: no route" | false ↦ returned true "" ], w + 1)

abbrev sick : String → String → ℕ → Outcome × ℕ
sick bad h w = (elim (h == bad) [ true ↦ returned false "down" | false ↦ returned true "" ], w + 1)

abbrev pool_with : String → Pool ℕ
pool_with bad = record {
  drain = answers;
  undrain = answers;
  act = patches bad;
  health = answers;
  settle = some answers;
}

abbrev quiet : Hooks ℕ
quiet = record { on_event = none; cancelled = none; time = λ w. w }

abbrev hosts : List String
hosts = "a" ∷ "b" ∷ "c" ∷ []

-- A run of the three hosts, with all that it calls open.
simulate : String → ℕ → ℕ → Report ℕ
unfolding run proceed refuse close result roll_groups roll_group guard_capacity maintain drain_phase
    act_phase settle_with settle_each health_phase undrain_phase record_done out_of_rotation
    back_in_rotation put_back put_back_one bail attempt emit call stop_requested probe_all verdict
    healthy_of batches batches_from safe insert lookup sorted
simulate bad max_unavailable min_healthy =
    run (pool_with bad) quiet hosts max_unavailable false min_healthy 0

abbrev fails_at_b : Report ℕ
fails_at_b = run (pool_with "b") quiet hosts 1 false 2 0

fails_at_b-report :
    (fails_at_b.state ≡ RunState.failed)
    × (fails_at_b.done ≡ "a" ∷ [])
    × (fails_at_b.drained ≡ "b" ∷ [])
    × (fails_at_b.skipped ≡ "c" ∷ [])
    × (length fails_at_b.events ≡ 7)
unfolding simulate
fails_at_b-report = (refl, refl, refl, refl, refl)

serving_never_below_example :
    2 ≤ length (replay serve (found_healthy answers hosts 0) (take 6 fails_at_b.events))
unfolding simulate
serving_never_below_example =
    serving_never_below (pool_with "b") quiet hosts 1 false 2 0 2 6 (omega arith) (omega arith)

out_never_above_example : length (replay exclude [] (take 6 fails_at_b.events)) ≤ group_size 1
out_never_above_example = out_never_above (pool_with "b") quiet hosts 1 false 2 0 6

drained-eq-log_example : fails_at_b.drained ≡ sorted (replay exclude [] fails_at_b.events)
drained-eq-log_example = drained-eq-log (pool_with "b") quiet hosts 1 false 2 0

run-done_complete_example :
    let r = run (pool_with "") quiet hosts 2 false 1 0 in (r.done ≡ hosts) × (r.drained ≡ [])
unfolding simulate
run-done_complete_example = run-done_complete (pool_with "") quiet hosts 2 false 1 0 refl

run_refuses_degraded_example :
    let pool = record (pool_with "") { health = sick "b" } in
    let (states, w) = probe_all pool.health hosts [] 0 in
    IsRefusal pool quiet hosts 1 1 0
      (verdict hosts false states)
      (quiet.time w)
      (run pool quiet hosts 1 false 1 0)
unfolding simulate
run_refuses_degraded_example =
    run_refuses_degraded (record (pool_with "") { health = sick "b" }) quiet hosts 1 1 0 "b" refl

blamed_stays_out_example : member "b" fails_at_b.drained ≡ true
unfolding simulate
blamed_stays_out_example =
    blamed_stays_out (pool_with "b") quiet hosts 1 false 2 0 "b" (refl, (refl, (refl, tt))) refl

batches-concat-fit_example :
    (concat (batches hosts 2) ≡ hosts)
    × All (λ group. length group ≤ group_size 2) (batches hosts 2)
batches-concat-fit_example = batches-concat-fit hosts 2
