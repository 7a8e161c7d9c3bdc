-- ===== src/Rolling/Safety.antt =====
-- The rules that webgui/rolling.py opens with, as theorems on the log of a whole run. The log is
-- read by `replay` alone, so that no theorem here trusts the sets that `run` keeps.
use sysible_controller.Prelude.{
  ℕ, ◌≤◌, ◌≡◌, refl, ap, sym, String, Bool, none, some, Option, List, [], length, take, concat,
  sorted, arith,
}
use sysible_controller.Rolling.Events.{RunState, Detail}
use sysible_controller.Rolling.Base.{
  Pool, Hooks, Flow, go, halt, verdict, probe_all, group_size, batches,
}
use sysible_controller.Rolling.Run.{Report, run, close, proceed, result, roll_groups, begin}
use sysible_controller.Rolling.Replay.{replay, Always, Always-take, serve, exclude}
use sysible_controller.Rolling.Ends.{Ends, Ends-weaken, Stops, IsStop}
use sysible_controller.Rolling.Complete.{Books}
use sysible_controller.Rolling.Preflight.{
  found_healthy, found_healthy-IsDistinct, batches-fit, concat-batches,
}
use sysible_controller.Rolling.Truth.{IsTrue, Halted}
use sysible_controller.Rolling.Truth.Group.{roll_groups-Ends, no_members}

-- What is true of the report of any run.
record IsSound {W : Type 0} (floor cap : ℕ) (start : List String) (r : Report W) : Type 0 where
  enough : Always serve (λ hosts. floor ≤ length hosts) start r.events
  few : Always exclude (λ hosts. length hosts ≤ cap) [] r.events
  honest : r.drained ≡ sorted (replay exclude [] r.events)

close-IsSound :
    {W : Type 0} (floor cap : ℕ) (start members : List String) (r : Flow W (Unit {0}))
    → Ends (λ _ s. IsTrue floor cap start s) (Halted floor cap start) r
    → IsSound floor cap start (close members r)
unfolding close result sorted
close-IsSound floor bound start members (go _ s) inv = record {
  enough = inv.enough;
  few = inv.few;
  honest = ap sorted (sym inv.out);
}
close-IsSound floor bound start members (halt state why s) inv = record {
  enough = inv.enough;
  few = inv.few;
  honest = ap sorted (sym inv.out);
}

abbrev IsComplete : {W : Type 0} → List String → Report W → Type 0
IsComplete members r = r.state ≡ RunState.done → (r.done ≡ members) × (r.drained ≡ [])

close-IsComplete :
    {W : Type 0} (members : List String) (r : Flow W (Unit {0}))
    → Ends (λ _ s. Books [] members s) Stops r
    → IsComplete members (close members r)
unfolding close result sorted
close-IsComplete members (go _ s) b e = (b.done, ap sorted (no_members s.left_drained b.covered))
close-IsComplete members (halt RunState.done why s) stop e = absurd stop
close-IsComplete members (halt RunState.failed why s) stop e = cc
close-IsComplete members (halt RunState.refused why s) stop e = cc
close-IsComplete members (halt RunState.cancelled why s) stop e = cc

module _ {W : Type 0} (pool : Pool W) (hooks : Hooks W) (members : List String) (mu : ℕ)
    (degraded : Bool) (mh : ℕ) (w : W) where
  abbrev report : Report W
  report = run pool hooks members mu degraded mh w

  abbrev start : List String
  start = found_healthy pool.health members w

  -- How the groups end, from the preflight's pool.
  groups_end :
      (floor : ℕ) (w' : W)
      → floor ≤ mh
      → floor ≤ length start
      → Ends
          (λ _ t. IsTrue floor (group_size mu) start t × Books [] (concat (batches members mu)) t)
          (λ state why t. IsTrue floor (group_size mu) start t × IsStop state)
          (roll_groups pool hooks mh (batches members mu) (begin w' start))
  groups_end floor w' low enough =
      roll_groups-Ends floor (group_size mu) start pool hooks mh [] (batches members mu) _ low
        (batches-fit members mu) (record { covered = λ h p. p; done = refl })
        (record {
          distinct = found_healthy-IsDistinct pool.health members w;
          serving = refl;
          out = refl;
          enough = enough;
          few = omega arith;
          enough_now = enough;
          few_now = omega arith;
        })

  proceed-IsSound :
      (floor : ℕ) (v : Option Detail) (w' : W)
      → floor ≤ mh
      → floor ≤ length start
      → IsSound floor (group_size mu) start (proceed pool hooks members mu mh v start w')
  unfolding proceed result
  proceed-IsSound floor (some why) w' low enough = record {
    enough = (enough, enough);
    few = (omega arith, omega arith);
    honest = refl;
  }
  proceed-IsSound floor none w' low enough = close-IsSound floor (group_size mu) start members _ (
      Ends-weaken _ _ _ _ (roll_groups pool hooks mh (batches members mu) (begin w' start))
        (λ _ t h. h.0) (λ _ _ t h. h.0) (groups_end floor w' low enough))

  proceed-IsComplete :
      (v : Option Detail) (w' : W)
      → IsComplete members (proceed pool hooks members mu mh v start w')
  unfolding proceed result
  proceed-IsComplete (some why) w' = λ e. cc
  proceed-IsComplete none w' = close-IsComplete members _ (
      Ends-weaken _ _ _ _ (roll_groups pool hooks mh (batches members mu) (begin w' start))
        (λ _ t h. rw (← concat-batches members mu) h.1) (λ _ _ t h. h.1)
        (groups_end 0 w' (omega arith) (omega arith)))

  run-IsSound :
      (floor : ℕ) → floor ≤ mh → floor ≤ length start → IsSound floor (group_size mu) start report
  unfolding run
  run-IsSound floor low enough = proceed-IsSound floor (verdict members degraded _) _ low enough

  -- RULE 1. Read off the log of any run, of any outcome: before its first event and after each, at
  -- least as many hosts serve as the pool must keep, or as the preflight found healthy if those
  -- are fewer.
  pub serving_never_below :
      (floor n : ℕ)
      → floor ≤ mh
      → floor ≤ length start
      → floor ≤ length (replay serve start (take n report.events))
  serving_never_below floor n low enough =
      Always-take serve _ start report.events n (run-IsSound floor low enough).enough

  -- Read off the log of any run, of any outcome: before its first event and after each, no more
  -- hosts are out of rotation than `max_unavailable` allows.
  pub out_never_above : (n : ℕ) → length (replay exclude [] (take n report.events)) ≤ group_size mu
  out_never_above n =
      Always-take exclude _ [] report.events n (run-IsSound 0 (omega arith) (omega arith)).few

  -- RULE 4. The hosts that a report lists as drained are those that its log took out of rotation
  -- and did not put back, sorted: no host is out without being reported.
  pub drained-eq-log : report.drained ≡ sorted (replay exclude [] report.events)
  drained-eq-log = (run-IsSound 0 (omega arith) (omega arith)).honest

  -- A run that reports `ok` has rolled every member, in the roll order, and left none drained.
  pub run-done_complete :
      report.state ≡ RunState.done → (report.done ≡ members) × (report.drained ≡ [])
  unfolding run
  run-done_complete =
      proceed-IsComplete (verdict members degraded (probe_all pool.health members [] w).0) _
