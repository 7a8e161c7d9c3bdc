-- ===== src/Rolling/Complete.antt =====
-- Where every phase of a group goes on: whom it took out it put back, and it counts them as done.
use sysible_controller.Prelude.{
  ◌==◌, ℕ, ◌+◌, length, ltb, Bool-cases, inl, inr, String, ◌≡◌, refl, ap, sym, ◌∙◌, true, Option,
  none, some, List, [], ◌∷◌, ◌++◌, member, add, discard, arith, if◌then◌else◌, member-discard,
  member-add, append-nil, append_assoc,
}
use sysible_controller.Rolling.Events.{Phase, Status, Outcome}
use sysible_controller.Rolling.Base.{Pool, Hooks, Progress}
use sysible_controller.Rolling.Run.{
  emit, out_of_rotation, back_in_rotation, record_done, drain_phase, act_phase, settle_each,
  settle_with, health_phase, undrain_phase, guard_capacity, maintain, roll_group,
}
use sysible_controller.Rolling.Truth.Phases.{taking}
use sysible_controller.Rolling.Ends.{
  Stops, bail-Stops, Ends, Ends-bind, Ends-attempt, Ends-stop_requested, Ends-if, Logged,
}

-- Everyone out of rotation is in `hosts`, and `finished` are the members done.
pub record Books {W : Type 0} (hosts finished : List String) (s : Progress W) : Type 0 where
  pub covered : (h : String) → member h s.left_drained ≡ true → member h hosts ≡ true
  pub done : s.finished ≡ finished

same-Books :
    {W : Type 0} {s t : Progress W} (hosts done : List String)
    → t.left_drained ≡ s.left_drained
    → t.finished ≡ s.finished
    → Books hosts done s
    → Books hosts done t
same-Books hosts done left finished b = record {
  covered = λ h. rw left (b.covered h);
  done = finished ∙ b.done;
}

pub member-snoc :
    (x h : String) (hosts : List String)
    → member x (hosts ++ h ∷ []) ≡ (if x == h then true else member x hosts)
member-snoc x h [] = refl
member-snoc x h (y ∷ ys) = ground (arith, member-snoc x h ys)

-- The phases between the drain and the return leave the books alone.
module _ {W : Type 0} (hosts done : List String) (pool : Pool W) (hooks : Hooks W) where
  abbrev Settled : Unit {0} → Progress W → Type 0
  Settled _ s = Books hosts done s

  Logged-Books :
      (s t : Progress W) (h : String) (p : Phase) (st : Status)
      → Logged s h p st t
      → Books hosts done s
      → Books hosts done t
  Logged-Books s t h p st l b = same-Books hosts done l.left l.finished b

  act_phase-Books :
      (drained rest : List String) (s : Progress W)
      → Books hosts done s
      → Ends Settled Stops (act_phase pool hooks drained rest s)
  unfolding act_phase
  act_phase-Books drained [] s b = b
  act_phase-Books drained (h ∷ rest) s b =
      let ih = act_phase-Books drained rest in
      Ends-stop_requested pool hooks Settled Stops _ s λ stop t same.
        let b' = same-Books hosts done same.left same.finished b in
        Ends-if pool hooks Settled Stops stop _ _ t
          (λ _. bail-Stops pool hooks Settled drained [] _ _ t tt)
          λ _. Ends-attempt pool hooks Settled Stops Phase.act pool.act h _ t λ ok d u l.
            Ends-if pool hooks Settled Stops ok _ _ u (λ _. ih u (Logged-Books t u h _ _ l b'))
              (λ _. bail-Stops pool hooks Settled drained (h ∷ []) _ _ u tt)

  settle_each-Books :
      (settle : String → W → Outcome × W) (drained rest : List String) (s : Progress W)
      → Books hosts done s
      → Ends Settled Stops (settle_each pool hooks settle drained rest s)
  unfolding settle_each
  settle_each-Books settle drained [] s b = b
  settle_each-Books settle drained (h ∷ rest) s b =
      let ih = settle_each-Books settle drained rest in
      Ends-attempt pool hooks Settled Stops Phase.settle settle h _ s λ ok d u l.
        Ends-if pool hooks Settled Stops ok _ _ u (λ _. ih u (Logged-Books s u h _ _ l b))
          (λ _. bail-Stops pool hooks Settled drained (h ∷ []) _ _ u tt)

  settle_with-Books :
      (settle : Option (String → W → Outcome × W)) (drained : List String) (s : Progress W)
      → Books hosts done s
      → Ends Settled Stops (settle_with pool hooks settle drained s)
  unfolding settle_with
  settle_with-Books none drained s b = b
  settle_with-Books (some settle) drained s b = settle_each-Books settle drained drained s b

  health_phase-Books :
      (drained rest : List String) (s : Progress W)
      → Books hosts done s
      → Ends Settled Stops (health_phase pool hooks drained rest s)
  unfolding health_phase
  health_phase-Books drained [] s b = b
  health_phase-Books drained (h ∷ rest) s b =
      let ih = health_phase-Books drained rest in
      Ends-attempt pool hooks Settled Stops Phase.health pool.health h _ s λ ok d u l.
        Ends-if pool hooks Settled Stops ok _ _ u (λ _. ih u (Logged-Books s u h _ _ l b))
          (λ _. bail-Stops pool hooks Settled drained (h ∷ []) _ _ u tt)

  guard_capacity-Books :
      (min_healthy : ℕ) (group : List String) (s : Progress W)
      → Books hosts done s
      → Ends Settled Stops (guard_capacity pool hooks min_healthy group s)
  unfolding guard_capacity emit
  guard_capacity-Books min_healthy group s b =
      elim (Bool-cases
        (ltb (length s.healthy_now) (min_healthy + length (taking s.healthy_now group)))) [
          | inl e ↦ rw e tt
          | inr e ↦ rw e b
        ]

module _ {W : Type 0} (pool : Pool W) (hooks : Hooks W) where
  drain_phase-Books :
      (done group drained : List String) (s : Progress W)
      → Books drained done s
      → Ends
          (λ out t. (out ≡ drained ++ group) × Books out done t)
          Stops
          (drain_phase pool hooks group drained s)
  unfolding drain_phase out_of_rotation
  drain_phase-Books done [] drained s b = (sym (append-nil drained), b)
  drain_phase-Books done (h ∷ group) drained s b =
      let ih = drain_phase-Books done group (drained ++ h ∷ []) in
      Ends-attempt pool hooks _ Stops Phase.drain pool.drain h _ s λ ok d t l.
        Ends-if pool hooks (λ out u. (out ≡ drained ++ h ∷ group) × Books out done u) Stops ok _ _ t
          (λ _.
            rw (← append_assoc drained (h ∷ []) group)
              (ih _ (record { covered = λ x p. taken t l x p; done = l.finished ∙ b.done })))
          (λ _.
            bail-Stops pool hooks (λ out u. (out ≡ drained ++ h ∷ group) × Books out done u) drained
              [] _ _ t tt)
    where
      taken :
          (t : Progress W)
          → {st : Status} → Logged s h Phase.drain st t
          → (x : String) → member x (add h t.left_drained) ≡ true
          → member x (drained ++ h ∷ []) ≡ true
      taken t l x p =
          ground
            (arith, member-snoc x h drained, member-add x h t.left_drained, l.left, b.covered x)

  undrain_phase-Books :
      (drained done rest : List String) (s : Progress W)
      → Books rest done s
      → Ends (λ _ t. Books [] (done ++ rest) t) Stops (undrain_phase pool hooks drained rest s)
  unfolding undrain_phase back_in_rotation record_done
  undrain_phase-Books drained done [] s b = rw append-nil b
  undrain_phase-Books drained done (h ∷ rest) s b =
      let ih = undrain_phase-Books drained (done ++ h ∷ []) rest in
      Ends-attempt pool hooks _ Stops Phase.undrain pool.undrain h _ s λ ok d t l.
        Ends-if pool hooks (λ _ u. Books [] (done ++ h ∷ rest) u) Stops ok _ _ t
          (λ _. rw (← append_assoc done (h ∷ []) rest) (
            ih _ (record {
              covered = λ x p. back t l x p;
              done = ap (λ xs. xs ++ h ∷ []) (l.finished ∙ b.done);
            })))
          (λ _.
            bail-Stops pool hooks (λ _ u. Books [] (done ++ h ∷ rest) u) drained (h ∷ []) _ _ t tt)
    where
      back :
          (t : Progress W)
          → {st : Status} → Logged s h Phase.undrain st t
          → (x : String) → member x (discard h t.left_drained) ≡ true
          → member x rest ≡ true
      back t l x p = ground (arith, member-discard x h t.left_drained, l.left, b.covered x)

  maintain-Books :
      (done drained : List String) (s : Progress W)
      → Books drained done s
      → Ends (λ _ t. Books [] (done ++ drained) t) Stops (maintain pool hooks drained s)
  unfolding maintain
  maintain-Books done drained s b =
      Ends-bind (Settled drained done pool hooks) Q Stops (act_phase pool hooks drained drained) _ s
        (act_phase-Books drained done pool hooks drained drained s b)
        λ _ t acted.
          Ends-bind (Settled drained done pool hooks) Q Stops
            (settle_with pool hooks pool.settle drained) _ t
            (settle_with-Books drained done pool hooks pool.settle drained t acted)
            λ _ u settled.
              Ends-bind (Settled drained done pool hooks) Q Stops
                (health_phase pool hooks drained drained) _ u
                (health_phase-Books drained done pool hooks drained drained u settled)
                λ _ v healthy. undrain_phase-Books drained done drained v healthy
    where
      Q : Unit {0} → Progress W → Type 0
      Q _ t = Books [] (done ++ drained) t

  -- A group that ends without a halt is back in rotation and done, all of it.
  pub roll_group-Books :
      (min_healthy : ℕ) (done group : List String) (s : Progress W)
      → Books [] done s
      → Ends (λ _ t. Books [] (done ++ group) t) Stops (roll_group pool hooks min_healthy group s)
  unfolding roll_group
  roll_group-Books min_healthy done group s b =
      Ends-stop_requested pool hooks Q Stops _ s λ stop t same.
        let b' = same-Books [] done same.left same.finished b in
        Ends-if pool hooks Q Stops stop _ _ t (λ _. tt)
          λ _.
            Ends-bind (Settled [] done pool hooks) Q Stops
              (guard_capacity pool hooks min_healthy group) _ t
              (guard_capacity-Books [] done pool hooks min_healthy group t b')
              λ _ u c.
                Ends-bind _ Q Stops (drain_phase pool hooks group []) _ u
                  (drain_phase-Books done group [] u c)
                  λ out v d. rw (← d.0) (maintain-Books done out v d.1)
    where
      Q : Unit {0} → Progress W → Type 0
      Q _ t = Books [] (done ++ group) t
