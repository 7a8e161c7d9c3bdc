-- ===== src/Rolling/Blame/Phases.antt =====
-- The phases of webgui/rolling.py keep a blamed member out of rotation.
use sysible_controller.Prelude.{
  append-nil, append_assoc, sym, ◌∙◌, ◌≡◌, refl, String, true, false, not, Option, none, some, List,
  [], ◌∷◌, ◌++◌, member, add, discard, IsDistinct, arith, eq_iff, eq_refl, member-discard,
  member-add,
}
use mathlib.Core.Option.{some-injective}
use mathlib.Core.Path.{subst}
use sysible_controller.Rolling.Complete.{member-snoc}
use sysible_controller.Rolling.Events.{Phase, Status, Detail, RunState, Outcome}
use sysible_controller.Rolling.Base.{Pool, Hooks, Progress}
use sysible_controller.Rolling.Run.{
  put_back_one, put_back, bail, out_of_rotation, back_in_rotation, record_done, drain_phase,
  act_phase, settle_each, settle_with, health_phase, undrain_phase,
}
use sysible_controller.Rolling.Ends.{
  Goes, put_back-Goes, Ends, Ends-bind, Ends-attempt, Ends-stop_requested, Ends-if, Logged,
}

-- the member that the reason of a failure names as broken
abbrev pub blamed_host : Detail → Option String
blamed_host (Detail.not_acted h _) = some h
blamed_host (Detail.never_back h _) = some h
blamed_host (Detail.not_healthy h _) = some h
blamed_host (Detail.not_returned h _) = some h
blamed_host _ = none

abbrev pub Blames : {W : Type 0} → RunState → Detail → Progress W → Type 0
Blames state why s = (h : String) → blamed_host why ≡ some h → member h s.left_drained ≡ true

abbrev pub IsOut : {W : Type 0} → List String → Progress W → Type 0
IsOut hosts s = (h : String) → member h hosts ≡ true → member h s.left_drained ≡ true

member-here : (h : String) (hosts : List String) → member h (h ∷ hosts) ≡ true
member-here h hosts = rw eq_refl

member-there :
    (x h : String) (hosts : List String) → member x hosts ≡ true → member x (h ∷ hosts) ≡ true
member-there x h hosts p = ground arith

module _ {W : Type 0} (pool : Pool W) (hooks : Hooks W) where
  -- Putting the others back leaves a blamed host where it is.
  put_back-IsOut :
      (x : String) (H : RunState → Detail → Progress W → Type 0) (drained : List String)
      (s : Progress W)
      → member x s.left_drained ≡ true
      → Ends (λ _ t. member x t.left_drained ≡ true) H (put_back pool hooks drained (x ∷ []) s)
  unfolding put_back put_back_one back_in_rotation
  put_back-IsOut x H [] s out = out
  put_back-IsOut x H (h ∷ drained) s out =
      let ih = put_back-IsOut x H drained in
      Ends-bind K K H (put_back_one pool hooks h (x ∷ [])) _ s
        (Ends-if pool hooks K H (member h (x ∷ [])) _ _ s (λ _. out)
          λ other. Ends-attempt pool hooks K H Phase.health pool.health h _ s λ ok d t l.
            Ends-if pool hooks K H (not ok) _ _ t (λ _. rw l.left out)
              λ _. Ends-attempt pool hooks K H Phase.undrain pool.undrain h _ t λ ok' d' u l'.
                Ends-if pool hooks K H ok' _ _ u (λ _. others u other (rw (l'.left, l.left) out))
                  (λ _. rw (l'.left, l.left) out))
        (λ _ t out'. ih t out')
    where
      K : Unit {0} → Progress W → Type 0
      K _ t = member x t.left_drained ≡ true

      others :
          (u : Progress W)
          → member h (x ∷ []) ≡ false
          → member x u.left_drained ≡ true
          → member x (discard h u.left_drained) ≡ true
      others u other out = ground (arith, member-discard x h u.left_drained, eq_iff x h, eq_iff h x)

  -- A halt that blames nobody.
  bail_unblamed :
      {A : Type 0} (Q : A → Progress W → Type 0) (drained hosts : List String) (state : RunState)
      (why : Detail) (s : Progress W)
      → blamed_host why ≡ none
      → Ends Q Blames (bail pool hooks drained hosts state why s)
  unfolding bail
  bail_unblamed Q drained hosts state why s nobody =
      Ends-bind (Goes pool hooks) Q Blames (put_back pool hooks drained hosts) _ s
        (put_back-Goes pool hooks Blames drained hosts s) (λ _ t _ h e. cc nobody)

  -- A halt that blames one host, which is out.
  bail_blamed :
      {A : Type 0} (Q : A → Progress W → Type 0) (drained : List String) (x : String)
      (state : RunState) (why : Detail) (s : Progress W)
      → blamed_host why ≡ some x
      → member x s.left_drained ≡ true
      → Ends Q Blames (bail pool hooks drained (x ∷ []) state why s)
  unfolding bail
  bail_blamed Q drained x state why s one out =
      Ends-bind (λ _ t. member x t.left_drained ≡ true) Q Blames
        (put_back pool hooks drained (x ∷ [])) _ s (put_back-IsOut x Blames drained s out)
        (λ _ t out' h e.
          subst (λ y. member y t.left_drained ≡ true) (some-injective x h (sym one ∙ e)) out')

  abbrev pub Out : List String → Unit {0} → Progress W → Type 0
  Out hosts _ t = IsOut hosts t

  pub drain_phase-Out :
      (group drained : List String) (s : Progress W)
      → IsOut drained s
      → Ends
          (λ hosts t. (hosts ≡ drained ++ group) × IsOut hosts t)
          Blames
          (drain_phase pool hooks group drained s)
  unfolding drain_phase out_of_rotation
  drain_phase-Out [] drained s out = (sym (append-nil drained), out)
  drain_phase-Out (h ∷ group) drained s out =
      let ih = drain_phase-Out group (drained ++ h ∷ []) in
      Ends-attempt pool hooks _ Blames Phase.drain pool.drain h _ s λ ok d t l.
        Ends-if pool hooks (λ hosts t. (hosts ≡ drained ++ h ∷ group) × IsOut hosts t) Blames ok _ _
          t (λ _. rw (← append_assoc drained (h ∷ []) group) (ih _ (taken t l)))
          (λ _.
            bail_unblamed (λ hosts t. (hosts ≡ drained ++ h ∷ group) × IsOut hosts t) drained [] _ _
              t refl)
    where
      taken :
          (t : Progress W)
          → {st : Status} → Logged s h Phase.drain st t
          → (x : String) → member x (drained ++ h ∷ []) ≡ true
          → member x (add h t.left_drained) ≡ true
      taken t l x p =
          ground (arith, member-snoc x h drained, member-add x h t.left_drained, l.left, out x)

  pub act_phase-Out :
      (hosts drained rest : List String) (s : Progress W)
      → ((h : String) → member h rest ≡ true → member h hosts ≡ true)
      → IsOut hosts s
      → Ends (Out hosts) Blames (act_phase pool hooks drained rest s)
  unfolding act_phase
  act_phase-Out hosts drained [] s sub out = out
  act_phase-Out hosts drained (h ∷ rest) s sub out =
      let ih = act_phase-Out hosts drained rest in
      Ends-stop_requested pool hooks (Out hosts) Blames _ s λ stop t same.
        Ends-if pool hooks (Out hosts) Blames stop _ _ t
          (λ _. bail_unblamed (Out hosts) drained [] _ _ t refl)
          λ _. Ends-attempt pool hooks (Out hosts) Blames Phase.act pool.act h _ t λ ok d u l.
            Ends-if pool hooks (Out hosts) Blames ok _ _ u
              (λ _.
                ih u (λ x p. sub x (member-there x h rest p))
                  (λ x p. rw (l.left, same.left) (out x p)))
              (λ _.
                bail_blamed (Out hosts) drained h _ _ u refl
                  (rw (l.left, same.left) (out h (sub h (member-here h rest)))))

  settle_each-Out :
      (settle : String → W → Outcome × W) (hosts drained rest : List String) (s : Progress W)
      → ((h : String) → member h rest ≡ true → member h hosts ≡ true)
      → IsOut hosts s
      → Ends (Out hosts) Blames (settle_each pool hooks settle drained rest s)
  unfolding settle_each
  settle_each-Out settle hosts drained [] s sub out = out
  settle_each-Out settle hosts drained (h ∷ rest) s sub out =
      let ih = settle_each-Out settle hosts drained rest in
      Ends-attempt pool hooks (Out hosts) Blames Phase.settle settle h _ s λ ok d u l.
        Ends-if pool hooks (Out hosts) Blames ok _ _ u
          (λ _. ih u (λ x p. sub x (member-there x h rest p)) (λ x p. rw l.left (out x p)))
          (λ _.
            bail_blamed (Out hosts) drained h _ _ u refl
              (rw l.left (out h (sub h (member-here h rest)))))

  pub settle_with-Out :
      (settle : Option (String → W → Outcome × W)) (drained : List String) (s : Progress W)
      → IsOut drained s
      → Ends (Out drained) Blames (settle_with pool hooks settle drained s)
  unfolding settle_with
  settle_with-Out none drained s out = out
  settle_with-Out (some settle) drained s out =
      settle_each-Out settle drained drained drained s (λ h p. p) out

  pub health_phase-Out :
      (hosts drained rest : List String) (s : Progress W)
      → ((h : String) → member h rest ≡ true → member h hosts ≡ true)
      → IsOut hosts s
      → Ends (Out hosts) Blames (health_phase pool hooks drained rest s)
  unfolding health_phase
  health_phase-Out hosts drained [] s sub out = out
  health_phase-Out hosts drained (h ∷ rest) s sub out =
      let ih = health_phase-Out hosts drained rest in
      Ends-attempt pool hooks (Out hosts) Blames Phase.health pool.health h _ s λ ok d u l.
        Ends-if pool hooks (Out hosts) Blames ok _ _ u
          (λ _. ih u (λ x p. sub x (member-there x h rest p)) (λ x p. rw l.left (out x p)))
          (λ _.
            bail_blamed (Out hosts) drained h _ _ u refl
              (rw l.left (out h (sub h (member-here h rest)))))

  pub undrain_phase-Out :
      (drained rest : List String) (s : Progress W)
      → IsDistinct rest
      → IsOut rest s
      → Ends (Goes pool hooks) Blames (undrain_phase pool hooks drained rest s)
  unfolding undrain_phase back_in_rotation record_done
  undrain_phase-Out drained [] s d out = tt
  undrain_phase-Out drained (h ∷ rest) s d out =
      let ih = undrain_phase-Out drained rest in
      Ends-attempt pool hooks (Goes pool hooks) Blames Phase.undrain pool.undrain h _ s λ ok e t l.
        Ends-if pool hooks (Goes pool hooks) Blames ok _ _ t (λ _. ih _ d.1 (others t l))
          (λ _.
            bail_blamed (Goes pool hooks) drained h _ _ t refl
              (rw l.left (out h (member-here h rest))))
    where
      others :
          (t : Progress W)
          → {st : Status} → Logged s h Phase.undrain st t
          → (x : String) → member x rest ≡ true
          → member x (discard h t.left_drained) ≡ true
      others t l x p = ground (
        arith,
        member-discard x h t.left_drained,
        l.left,
        out x,
        member-there x h rest,
        d.0,
        eq_iff x h,
      )
