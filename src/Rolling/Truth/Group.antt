-- ===== src/Rolling/Truth/Group.antt =====
-- A whole group, and all groups in turn, keep the log true.
use sysible_controller.Prelude.{
  ℕ, ◌+◌, ◌≤◌, ◌≡◌, refl, true, false, eq_refl, String, List, [], ◌∷◌, ◌++◌, length, concat, All,
  member, ltb, arith, Bool-cases, inl, inr, ltb-false→le, append-nil, append_assoc,
}
use sysible_controller.Rolling.Events.{Phase, Detail, RunState, error}
use sysible_controller.Rolling.Base.{Pool, Hooks, Progress}
use sysible_controller.Rolling.Run.{
  emit, drain_phase, act_phase, settle_with, health_phase, guard_capacity, maintain, roll_group,
  roll_groups,
}
use sysible_controller.Rolling.Ends.{
  Ends, Ends-×, Ends-bind, Ends-stop_requested, Ends-if, Stops, IsStop,
}
use sysible_controller.Rolling.Complete.{Books, roll_group-Books}
use sysible_controller.Rolling.Truth.{IsTrue, Kept, Halted, neutral-IsTrue, SameBooks-IsTrue}
use sysible_controller.Rolling.Truth.Phases.{
  taking, drain_phase-IsTrue, act_phase-IsTrue, settle_with-IsTrue, health_phase-IsTrue,
  undrain_phase-IsTrue,
}

pub no_members :
    (hosts : List String) → ((h : String) → member h hosts ≡ true → false ≡ true) → hosts ≡ []
no_members [] none = refl
no_members (x ∷ xs) none = ground (arith, none x, eq_refl x)

module _ {W : Type 0} (floor cap : ℕ) (start : List String) (pool : Pool W) (hooks : Hooks W) where
  abbrev On : {A : Type 0} → A → Progress W → Type 0
  On = Kept floor cap start

  abbrev Off : RunState → Detail → Progress W → Type 0
  Off = Halted floor cap start

  maintain-IsTrue :
      (drained : List String) (s : Progress W)
      → IsTrue floor cap start s
      → Ends On Off (maintain pool hooks drained s)
  unfolding maintain
  maintain-IsTrue drained s inv =
      Ends-bind On On Off (act_phase pool hooks drained drained) _ s
        (act_phase-IsTrue floor cap start pool hooks drained drained s inv)
        λ _ t acted.
          Ends-bind On On Off (settle_with pool hooks pool.settle drained) _ t
            (settle_with-IsTrue floor cap start pool hooks pool.settle drained t acted)
            λ _ u settled.
              Ends-bind On On Off (health_phase pool hooks drained drained) _ u
                (health_phase-IsTrue floor cap start pool hooks drained drained u settled)
                λ _ v healthy.
                  undrain_phase-IsTrue floor cap start pool hooks drained drained v healthy

  -- The guard lets a group through only where the pool has the room.
  guard_capacity-IsTrue :
      (min_healthy : ℕ) (group : List String) (s : Progress W)
      → IsTrue floor cap start s
      → Ends
          (λ (_ : Unit {0}) t.
            (t ≡ s) × (min_healthy + length (taking t.healthy_now group) ≤ length t.healthy_now))
          Off
          (guard_capacity pool hooks min_healthy group s)
  unfolding guard_capacity emit
  guard_capacity-IsTrue min_healthy group s inv =
      elim (Bool-cases
        (ltb (length s.healthy_now) (min_healthy + length (taking s.healthy_now group)))) [
          | inl e ↦ rw e (
              neutral-IsTrue floor cap start s _ _ Phase.drain error
                (record {
                  entry = _;
                  grown = refl;
                  at_host = refl;
                  at_phase = refl;
                  with_status = refl;
                  healthy = refl;
                  left = refl;
                  finished = refl;
                })
                (λ _. refl) (λ _. refl) inv)
          | inr e ↦ rw e (refl, ltb-false→le _ _ e)
        ]

  roll_group-IsTrue :
      (min_healthy : ℕ) (group : List String) (s : Progress W)
      → floor ≤ min_healthy
      → length group ≤ cap
      → s.left_drained ≡ []
      → IsTrue floor cap start s
      → Ends On Off (roll_group pool hooks min_healthy group s)
  unfolding roll_group
  roll_group-IsTrue min_healthy group s low fits none_out inv =
      Ends-stop_requested pool hooks On Off _ s λ stop t same.
        let inv' = SameBooks-IsTrue floor cap start s t same inv in
        Ends-if pool hooks On Off stop _ _ t (λ _. inv')
          λ _.
            Ends-bind _ On Off (guard_capacity pool hooks min_healthy group) _ t
              (guard_capacity-IsTrue min_healthy group t inv')
              λ _ u room.
                Ends-bind On On Off (drain_phase pool hooks group []) _ u
                  (drain_phase-IsTrue floor cap start pool hooks group [] u (omega (arith, room.1))
                    (rw (room.0, same.left, none_out) (omega arith)) (rw room.0 inv'))
                  (λ out v inv''. maintain-IsTrue out v inv'')

  -- Group after group, as long as none halts.
  pub roll_groups-Ends :
      (min_healthy : ℕ) (done : List String) (groups : List (List String)) (s : Progress W)
      → floor ≤ min_healthy
      → All (λ group. length group ≤ cap) groups
      → Books [] done s
      → IsTrue floor cap start s
      → Ends
          (λ _ t. IsTrue floor cap start t × Books [] (done ++ concat groups) t)
          (λ state why t. IsTrue floor cap start t × IsStop state)
          (roll_groups pool hooks min_healthy groups s)
  unfolding roll_groups
  roll_groups-Ends min_healthy done [] s low fit b inv = (inv, rw append-nil b)
  roll_groups-Ends min_healthy done (group ∷ groups) s low fit b inv =
      let ih = roll_groups-Ends min_healthy (done ++ group) groups in
      Ends-bind (λ _ t. IsTrue floor cap start t × Books [] (done ++ group) t) _
        (λ state why t. IsTrue floor cap start t × IsStop state)
        (roll_group pool hooks min_healthy group) _ s
        (Ends-× On (λ _ t. Books [] (done ++ group) t) Off Stops
          (roll_group pool hooks min_healthy group s)
          (roll_group-IsTrue min_healthy group s low fit.0 (no_members s.left_drained b.covered)
            inv)
          (roll_group-Books pool hooks min_healthy done group s b))
        (λ _ t h. rw (← append_assoc done group (concat groups)) (ih t low fit.1 h.1 h.0))
