-- ===== src/Rolling/Truth/Phases.antt =====
-- Each phase of a group keeps the log true; the drain phase needs the room that the guard checked.
use sysible_controller.Prelude.{
  ℕ, ◌+◌, ◌≤◌, String, refl, Bool, true, false, Option, none, some, List, [], ◌∷◌, ◌++◌, length,
  select, member, add, discard, arith, if◌then◌else◌, length-discard, IsDistinct, member-discard,
}
use sysible_controller.Rolling.Events.{Phase, Detail, RunState, Outcome, error}
use sysible_controller.Rolling.Base.{Pool, Hooks, Progress, ◌>>◌, status}
use sysible_controller.Rolling.Run.{
  bail, out_of_rotation, back_in_rotation, record_done, drain_phase, act_phase, settle_each,
  settle_with, health_phase, undrain_phase,
}
use sysible_controller.Rolling.Ends.{Ends, Ends-attempt, Ends-stop_requested, Ends-if, Logged}
use sysible_controller.Rolling.Truth.{
  IsTrue, Kept, Halted, neutral-IsTrue, out-IsTrue, back-IsTrue, SameBooks-IsTrue, bail-IsTrue,
}

-- the members of `group` that serve
abbrev pub taking : List String → List String → List String
taking healthy group = select (λ h. member h healthy) group

taking-discard-le :
    (h : String) (healthy group : List String)
    → length (taking (discard h healthy) group) ≤ length (taking healthy group)
taking-discard-le h healthy [] = omega arith
taking-discard-le h healthy (x ∷ group) =
    ground (arith, member-discard x h healthy, taking-discard-le h healthy group)

room_after :
    (floor : ℕ) (h : String) (healthy group : List String)
    → IsDistinct healthy
    → floor + length (taking healthy (h ∷ group)) ≤ length healthy
    → floor + length (taking (discard h healthy) group) ≤ length (discard h healthy)
room_after floor h healthy group d room =
    ground (arith, length-discard h healthy d, taking-discard-le h healthy group)

length-add-le_suc : (h : String) (hosts : List String) → length (add h hosts) ≤ length hosts + 1
length-add-le_suc h hosts = ground arith

module _ {W : Type 0} (floor cap : ℕ) (start : List String) (pool : Pool W) (hooks : Hooks W) where
  abbrev On : {A : Type 0} → A → Progress W → Type 0
  On = Kept floor cap start

  abbrev Off : RunState → Detail → Progress W → Type 0
  Off = Halted floor cap start

  pub drain_phase-IsTrue :
      (group drained : List String) (s : Progress W)
      → floor + length (taking s.healthy_now group) ≤ length s.healthy_now
      → length s.left_drained + length group ≤ cap
      → IsTrue floor cap start s
      → Ends On Off (drain_phase pool hooks group drained s)
  unfolding drain_phase out_of_rotation
  drain_phase-IsTrue [] drained s room places inv = inv
  drain_phase-IsTrue (h ∷ group) drained s room places inv =
      let ih = drain_phase-IsTrue group (drained ++ h ∷ []) in
      Ends-attempt pool hooks On Off Phase.drain pool.drain h _ s
        λ ok d t l. drained_one ih ok d t l
    where
      drained_one :
          ((u : Progress W)
            → floor + length (taking u.healthy_now group) ≤ length u.healthy_now
            → length u.left_drained + length group ≤ cap
            → IsTrue floor cap start u
            → Ends On Off (drain_phase pool hooks group (drained ++ h ∷ []) u))
          → (ok : Bool) (d : String) (t : Progress W) → Logged s h Phase.drain (status ok) t
          → Ends On Off (
              (if ok
                  then (out_of_rotation pool hooks h
                      >> drain_phase pool hooks group (drained ++ h ∷ []))
                  else bail pool hooks drained [] RunState.failed (Detail.not_drained h d))
                t)
      drained_one ih true d t l =
          let after = room_after floor h s.healthy_now group inv.distinct room in
          ih _ (rw l.healthy after) (rw l.left (omega (arith, length-add-le_suc h s.left_drained)))
            (out-IsTrue floor cap start s t h l (omega arith)
              (omega (arith, length-add-le_suc h s.left_drained)) inv)
      drained_one ih false d t l =
          bail-IsTrue floor cap start pool hooks _ drained [] _ _ t
            (neutral-IsTrue floor cap start s t h Phase.drain error l (λ _. refl) (λ _. refl) inv)

  pub act_phase-IsTrue :
      (drained rest : List String) (s : Progress W)
      → IsTrue floor cap start s
      → Ends On Off (act_phase pool hooks drained rest s)
  unfolding act_phase
  act_phase-IsTrue drained [] s inv = inv
  act_phase-IsTrue drained (h ∷ rest) s inv =
      let ih = act_phase-IsTrue drained rest in
      Ends-stop_requested pool hooks On Off _ s λ stop t same.
        let inv' = SameBooks-IsTrue floor cap start s t same inv in
        Ends-if pool hooks On Off stop _ _ t
          (λ _. bail-IsTrue floor cap start pool hooks _ drained [] _ _ t inv')
          λ _. Ends-attempt pool hooks On Off Phase.act pool.act h _ t λ ok d u l.
            let inv'' =
              neutral-IsTrue floor cap start t u h Phase.act _ l (λ _. refl) (λ _. refl) inv' in
            Ends-if pool hooks On Off ok _ _ u (λ _. ih u inv'')
              (λ _. bail-IsTrue floor cap start pool hooks _ drained (h ∷ []) _ _ u inv'')

  pub settle_each-IsTrue :
      (settle : String → W → Outcome × W) (drained rest : List String) (s : Progress W)
      → IsTrue floor cap start s
      → Ends On Off (settle_each pool hooks settle drained rest s)
  unfolding settle_each
  settle_each-IsTrue settle drained [] s inv = inv
  settle_each-IsTrue settle drained (h ∷ rest) s inv =
      let ih = settle_each-IsTrue settle drained rest in
      Ends-attempt pool hooks On Off Phase.settle settle h _ s λ ok d u l.
        let inv' =
          neutral-IsTrue floor cap start s u h Phase.settle _ l (λ _. refl) (λ _. refl) inv in
        Ends-if pool hooks On Off ok _ _ u (λ _. ih u inv')
          (λ _. bail-IsTrue floor cap start pool hooks _ drained (h ∷ []) _ _ u inv')

  pub settle_with-IsTrue :
      (settle : Option (String → W → Outcome × W)) (drained : List String) (s : Progress W)
      → IsTrue floor cap start s
      → Ends On Off (settle_with pool hooks settle drained s)
  unfolding settle_with
  settle_with-IsTrue none drained s inv = inv
  settle_with-IsTrue (some settle) drained s inv = settle_each-IsTrue settle drained drained s inv

  pub health_phase-IsTrue :
      (drained rest : List String) (s : Progress W)
      → IsTrue floor cap start s
      → Ends On Off (health_phase pool hooks drained rest s)
  unfolding health_phase
  health_phase-IsTrue drained [] s inv = inv
  health_phase-IsTrue drained (h ∷ rest) s inv =
      let ih = health_phase-IsTrue drained rest in
      Ends-attempt pool hooks On Off Phase.health pool.health h _ s λ ok d u l.
        let inv' =
          neutral-IsTrue floor cap start s u h Phase.health _ l (λ _. refl) (λ _. refl) inv in
        Ends-if pool hooks On Off ok _ _ u (λ _. ih u inv')
          (λ _. bail-IsTrue floor cap start pool hooks _ drained (h ∷ []) _ _ u inv')

  pub undrain_phase-IsTrue :
      (drained rest : List String) (s : Progress W)
      → IsTrue floor cap start s
      → Ends On Off (undrain_phase pool hooks drained rest s)
  unfolding undrain_phase back_in_rotation record_done
  undrain_phase-IsTrue drained [] s inv = inv
  undrain_phase-IsTrue drained (h ∷ rest) s inv =
      let ih = undrain_phase-IsTrue drained rest in
      Ends-attempt pool hooks On Off Phase.undrain pool.undrain h _ s
        λ ok d t l. returned ih ok d t l
    where
      returned :
          ((u : Progress W)
            → IsTrue floor cap start u
            → Ends On Off (undrain_phase pool hooks drained rest u))
          → (ok : Bool) (d : String) (t : Progress W) → Logged s h Phase.undrain (status ok) t
          → Ends On Off (
              (if ok
                  then (back_in_rotation pool hooks h
                      >> record_done pool hooks h
                      >> undrain_phase pool hooks drained rest)
                  else bail pool hooks drained (h ∷ []) RunState.failed (Detail.not_returned h d))
                t)
      returned ih true d t l =
          let inv' = back-IsTrue floor cap start s t h l inv in
          ih _ (record {
            distinct = inv'.distinct;
            serving = inv'.serving;
            out = inv'.out;
            enough = inv'.enough;
            few = inv'.few;
            enough_now = inv'.enough_now;
            few_now = inv'.few_now;
          })
      returned ih false d t l =
          bail-IsTrue floor cap start pool hooks _ drained (h ∷ []) _ _ t
            (neutral-IsTrue floor cap start s t h Phase.undrain error l (λ _. refl) (λ _. refl) inv)
