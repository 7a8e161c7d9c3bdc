-- ===== src/Rolling/Blame.antt =====
-- RULES 3 and 4 of webgui/rolling.py: the member that a failed run blames stays out of rotation.
pub mod Phases
use sysible_controller.Prelude.{
  Dict, append-nil, append_assoc, sym, ◌∙◌, ℕ, zero, suc, ◌≡◌, ◌==◌, refl, String, Bool, true,
  false, not, Option, none, some, List, [], ◌∷◌, ◌++◌, length, take, drop, All, member, add,
  discard, IsDistinct, sorted, arith, eq_iff, eq_refl, if◌then◌else◌, member-discard, member-add,
  member-sorted, Bool-cases, inl, inr, ltb, ◌+◌,
}
use mathlib.Core.Option.{some-injective}
use mathlib.Core.Path.{subst}
use sysible_controller.Rolling.Complete.{member-snoc}
use sysible_controller.Rolling.Events.{Phase, Status, Detail, RunState, Outcome}
use sysible_controller.Rolling.Base.{
  Pool, Hooks, Progress, Flow, go, halt, ◌>>=◌, status, batches, batches_from, group_size, verdict,
  probe_all, healthy_of,
}
use sysible_controller.Rolling.Run.{
  Report, emit, put_back_one, put_back, bail, out_of_rotation, back_in_rotation, record_done,
  drain_phase, act_phase, settle_each, settle_with, health_phase, undrain_phase, maintain,
  guard_capacity, roll_group, roll_groups, proceed, refuse, close, begin, result, run,
}
use sysible_controller.Rolling.Truth.Phases.{taking}
use sysible_controller.Rolling.Blame.Phases.{
  blamed_host, Blames, IsOut, Out, drain_phase-Out, act_phase-Out, settle_with-Out,
  health_phase-Out, undrain_phase-Out,
}
use sysible_controller.Rolling.Ends.{
  Goes, put_back-Goes, Ends, Ends-bind, Ends-attempt, Ends-stop_requested, Ends-if, Logged,
  SameBooks,
}

module _ {W : Type 0} (pool : Pool W) (hooks : Hooks W) where
  maintain-Out :
      (drained : List String) (s : Progress W)
      → IsDistinct drained
      → IsOut drained s
      → Ends (Goes pool hooks) Blames (maintain pool hooks drained s)
  unfolding maintain
  maintain-Out drained s d out =
      Ends-bind (Out pool hooks drained) (Goes pool hooks) Blames
        (act_phase pool hooks drained drained) _ s
        (act_phase-Out pool hooks drained drained drained s (λ h p. p) out)
        λ _ t acted.
          Ends-bind (Out pool hooks drained) (Goes pool hooks) Blames
            (settle_with pool hooks pool.settle drained) _ t
            (settle_with-Out pool hooks pool.settle drained t acted)
            λ _ u settled.
              Ends-bind (Out pool hooks drained) (Goes pool hooks) Blames
                (health_phase pool hooks drained drained) _ u
                (health_phase-Out pool hooks drained drained drained u (λ h p. p) settled)
                λ _ v healthy. undrain_phase-Out pool hooks drained drained v d healthy

  guard_capacity-Blames :
      (min_healthy : ℕ) (group : List String) (s : Progress W)
      → Ends (Goes pool hooks) Blames (guard_capacity pool hooks min_healthy group s)
  unfolding guard_capacity emit
  guard_capacity-Blames min_healthy group s =
      elim (Bool-cases
        (ltb (length s.healthy_now) (min_healthy + length (taking s.healthy_now group)))) [
          | inl e ↦ rw e (λ h p. cc)
          | inr e ↦ rw e tt
        ]

  roll_group-Blames :
      (min_healthy : ℕ) (group : List String) (s : Progress W)
      → IsDistinct group
      → Ends (Goes pool hooks) Blames (roll_group pool hooks min_healthy group s)
  unfolding roll_group
  roll_group-Blames min_healthy group s d =
      Ends-stop_requested pool hooks (Goes pool hooks) Blames _ s λ stop t same.
        Ends-if pool hooks (Goes pool hooks) Blames stop _ _ t (λ _ h e. cc)
          λ _.
            Ends-bind (Goes pool hooks) (Goes pool hooks) Blames
              (guard_capacity pool hooks min_healthy group) _ t
              (guard_capacity-Blames min_healthy group t)
              λ _ u _.
                Ends-bind (λ out v. (out ≡ group) × IsOut out v) (Goes pool hooks) Blames
                  (drain_phase pool hooks group []) _ u
                  (drain_phase-Out pool hooks group [] u (λ h p. cc))
                  (λ out v o. maintain-Out out v (rw o.0 d) o.1)

  roll_groups-Blames :
      (min_healthy : ℕ) (groups : List (List String)) (s : Progress W)
      → All IsDistinct groups
      → Ends (Goes pool hooks) Blames (roll_groups pool hooks min_healthy groups s)
  unfolding roll_groups
  roll_groups-Blames min_healthy [] s d = tt
  roll_groups-Blames min_healthy (group ∷ groups) s d =
      let ih = roll_groups-Blames min_healthy groups in
      Ends-bind (Goes pool hooks) (Goes pool hooks) Blames (roll_group pool hooks min_healthy group)
        _ s (roll_group-Blames min_healthy group s d.0) (λ _ t _. ih t d.1)

member-take :
    (x : String) (n : ℕ) (xs : List String) → member x xs ≡ false → member x (take n xs) ≡ false
member-take x zero xs h = refl
member-take x (suc n) [] h = refl
member-take x (suc n) (y ∷ ys) h = ground (arith, member-take x n ys)

take-IsDistinct : (n : ℕ) (xs : List String) → IsDistinct xs → IsDistinct (take n xs)
take-IsDistinct zero xs d = tt
take-IsDistinct (suc n) [] d = tt
take-IsDistinct (suc n) (x ∷ xs) d = (member-take x n xs d.0, take-IsDistinct n xs d.1)

drop-IsDistinct : (n : ℕ) (xs : List String) → IsDistinct xs → IsDistinct (drop n xs)
drop-IsDistinct zero xs d = d
drop-IsDistinct (suc n) [] d = tt
drop-IsDistinct (suc n) (x ∷ xs) d = drop-IsDistinct n xs d.1

batches_from-IsDistinct :
    (fuel n : ℕ) (members : List String)
    → IsDistinct members
    → All IsDistinct (batches_from fuel n members)
unfolding batches_from
batches_from-IsDistinct zero n members d = tt
batches_from-IsDistinct (suc fuel) n [] d = tt
batches_from-IsDistinct (suc fuel) n (m ∷ ms) d = (
  take-IsDistinct n (m ∷ ms) d,
  batches_from-IsDistinct fuel n (drop n (m ∷ ms)) (drop-IsDistinct n (m ∷ ms) d),
)

close-Blames :
    {W : Type 0} (members : List String) (r : Flow W (Unit {0})) (h : String)
    → Ends (λ _ _. Unit {0}) Blames r
    → blamed_host (close members r).detail ≡ some h
    → member h (close members r).drained ≡ true
unfolding close result
close-Blames members (go _ s) h ends e = cc
close-Blames members (halt state why s) h ends e = rw member-sorted (ends h e)

verdict-unblamed :
    (members : List String) (degraded : Bool) (states : Dict Bool) (why : Detail)
    → verdict members degraded states ≡ some why
    → blamed_host why ≡ none
unfolding verdict
verdict-unblamed members degraded states why e = ground arith

module _ {W : Type 0} (pool : Pool W) (hooks : Hooks W) (members : List String) (mu : ℕ)
    (degraded : Bool) (mh : ℕ) (w : W) where
  abbrev report : Report W
  report = run pool hooks members mu degraded mh w

  proceed-Blames :
      (v : Option Detail) (healthy : List String) (w' : W) (h : String)
      → IsDistinct members
      → ((why : Detail) → v ≡ some why → blamed_host why ≡ none)
      → blamed_host (proceed pool hooks members mu mh v healthy w').detail ≡ some h
      → member h (proceed pool hooks members mu mh v healthy w').drained ≡ true
  unfolding proceed refuse close result batches
  proceed-Blames (some why) healthy w' h d nobody e = cc (nobody why refl)
  proceed-Blames none healthy w' h d nobody e =
      close-Blames members _ h
        (roll_groups-Blames pool hooks mh (batches members mu) (begin w' healthy)
          (batches_from-IsDistinct (length members) (group_size mu) members d))
        e

  -- RULES 3 and 4. In a roll order without repetition, the member that the report blames, for a
  -- failed action, for not coming back, for its health or for a failed return to rotation, is
  -- among the members that the report leaves drained.
  pub blamed_stays_out :
      (h : String)
      → IsDistinct members
      → blamed_host report.detail ≡ some h
      → member h report.drained ≡ true
  unfolding run
  blamed_stays_out h d =
      proceed-Blames (verdict members degraded (probe_all pool.health members [] w).0)
        (healthy_of (probe_all pool.health members [] w).0) _ h d
        (verdict-unblamed members degraded (probe_all pool.health members [] w).0)
