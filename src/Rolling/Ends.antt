-- ===== src/Rolling/Ends.antt =====
-- How a phase of `run` ends: it goes on, or it halts the run; and the rules for its parts.
use sysible_controller.Prelude.{
  String, ◌≡◌, refl, Bool, List, [], ◌∷◌, ◌++◌, true, false, if◌then◌else◌, Option-cases, inl, inr,
  member, not,
}
use sysible_controller.Rolling.Events.{Phase, Status, Event, Detail, RunState, Outcome}
use sysible_controller.Rolling.Base.{Pool, Hooks, Progress, Flow, go, halt, ◌>>=◌, status}
use sysible_controller.Rolling.Run.{
  attempt, stop_requested, put_back_one, put_back, back_in_rotation, bail,
}

module _ {W A : Type 0} where
  -- `Q` holds where the phase goes on, and `H` where it halts.
  abbrev pub Ends :
      (A → Progress W → Type 0) → (RunState → Detail → Progress W → Type 0) → Flow W A → Type 0
  Ends Q H (go a s) = Q a s
  Ends Q H (halt state why s) = H state why s

  pub Ends-× :
      (P Q : A → Progress W → Type 0) (G H : RunState → Detail → Progress W → Type 0) (r : Flow W A)
      → Ends P G r
      → Ends Q H r
      → Ends (λ a s. P a s × Q a s) (λ state why s. G state why s × H state why s) r
  Ends-× P Q G H (go a s) p q = (p, q)
  Ends-× P Q G H (halt state why s) p q = (p, q)

  pub Ends-weaken :
      (P Q : A → Progress W → Type 0) (G H : RunState → Detail → Progress W → Type 0) (r : Flow W A)
      → ((a : A) (s : Progress W) → P a s → Q a s)
      → ((state : RunState) (why : Detail) (s : Progress W) → G state why s → H state why s)
      → Ends P G r
      → Ends Q H r
  Ends-weaken P Q G H (go a s) k l p = k a s p
  Ends-weaken P Q G H (halt state why s) k l p = l state why s p

-- `t` is `s` with one more entry in the log, and another world.
pub record Logged {W : Type 0} (s : Progress W) (h : String) (p : Phase) (st : Status)
    (t : Progress W) : Type 0 where
  pub entry : Event
  pub grown : t.events ≡ s.events ++ entry ∷ []
  pub at_host : entry.host ≡ h
  pub at_phase : entry.phase ≡ p
  pub with_status : entry.status ≡ st
  pub healthy : t.healthy_now ≡ s.healthy_now
  pub left : t.left_drained ≡ s.left_drained
  pub finished : t.finished ≡ s.finished

-- `t` is `s` with another world.
pub record SameBooks {W : Type 0} (s t : Progress W) : Type 0 where
  pub events : t.events ≡ s.events
  pub healthy : t.healthy_now ≡ s.healthy_now
  pub left : t.left_drained ≡ s.left_drained
  pub finished : t.finished ≡ s.finished

module _ {W A B : Type 0} where
  pub Ends-bind :
      (P : A → Progress W → Type 0) (Q : B → Progress W → Type 0)
      (H : RunState → Detail → Progress W → Type 0) (m : Progress W → Flow W A)
      (f : A → Progress W → Flow W B) (s : Progress W)
      → Ends P H (m s)
      → ((a : A) (t : Progress W) → P a t → Ends Q H (f a t))
      → Ends Q H ((m >>= f) s)
  Ends-bind P Q H m f s = flow (m s)
    where
      flow :
          (r : Flow W A)
          → Ends P H r
          → ((a : A) (t : Progress W) → P a t → Ends Q H (f a t))
          → Ends Q H (elim r [ go a t ↦ f a t | halt state why t ↦ halt state why t ])
      flow (go a t) p k = k a t p
      flow (halt state why t) p k = p

module _ {W B : Type 0} (pool : Pool W) (hooks : Hooks W) (Q : B → Progress W → Type 0)
    (H : RunState → Detail → Progress W → Type 0) where
  -- After a provider was called, its answer is in the log and nothing else is.
  pub Ends-attempt :
      (p : Phase) (provider : String → W → Outcome × W) (h : String)
      (f : Bool × String → Progress W → Flow W B) (s : Progress W)
      → ((ok : Bool) (d : String) (t : Progress W)
          → Logged s h p (status ok) t
          → Ends Q H (f (ok, d) t))
      → Ends Q H ((attempt pool hooks p provider h >>= f) s)
  unfolding attempt
  Ends-attempt p provider h f s k = k _ _ _ (record {
    entry = _;
    grown = refl;
    at_host = refl;
    at_phase = refl;
    with_status = refl;
    healthy = refl;
    left = refl;
    finished = refl;
  })

  -- A poll for the cancellation moves no host and logs nothing.
  pub Ends-stop_requested :
      (f : Bool → Progress W → Flow W B) (s : Progress W)
      → ((stop : Bool) (t : Progress W) → SameBooks s t → Ends Q H (f stop t))
      → Ends Q H ((stop_requested pool hooks >>= f) s)
  unfolding stop_requested
  Ends-stop_requested f s k = elim (Option-cases hooks.cancelled) [
    | inl e ↦
        rw e (k false s (record { events = refl; healthy = refl; left = refl; finished = refl }))
    | inr (poll, e) ↦
        rw e (k _ _ (record { events = refl; healthy = refl; left = refl; finished = refl }))
  ]

  pub Ends-if :
      (b : Bool) (m n : Progress W → Flow W B) (s : Progress W)
      → (b ≡ true → Ends Q H (m s))
      → (b ≡ false → Ends Q H (n s))
      → Ends Q H ((if b then m else n) s)
  Ends-if true m n s km kn = km refl
  Ends-if false m n s km kn = kn refl

-- Only a run to the end reports `ok`: a halt has one of the other states.
abbrev pub IsStop : RunState → Type 0
IsStop RunState.done = ⊥
IsStop _ = Unit

abbrev pub Stops : {W : Type 0} → RunState → Detail → Progress W → Type 0
Stops state why s = IsStop state

module _ {W : Type 0} (pool : Pool W) (hooks : Hooks W) where
  abbrev pub Goes : Unit {0} → Progress W → Type 0
  Goes a s = Unit

  -- Putting members back never halts a run.
  pub put_back-Goes :
      (H : RunState → Detail → Progress W → Type 0) (drained blamed : List String) (s : Progress W)
      → Ends Goes H (put_back pool hooks drained blamed s)
  unfolding put_back put_back_one back_in_rotation
  put_back-Goes H [] blamed s = tt
  put_back-Goes H (h ∷ drained) blamed s =
      let ih = put_back-Goes H drained blamed in
      Ends-bind Goes Goes H (put_back_one pool hooks h blamed) _ s
        (Ends-if pool hooks Goes H (member h blamed) _ _ s (λ _. tt)
          λ _. Ends-attempt pool hooks Goes H Phase.health pool.health h _ s λ ok d t l.
            Ends-if pool hooks Goes H (not ok) _ _ t (λ _. tt)
              λ _.
                Ends-attempt pool hooks Goes H Phase.undrain pool.undrain h _ t
                  λ ok' d' u l'. Ends-if pool hooks Goes H ok' _ _ u (λ _. tt) (λ _. tt))
        (λ _ t _. ih t)

  -- Whatever bails out halts the run, in the state that it names.
  pub bail-Stops :
      {A : Type 0} (Q : A → Progress W → Type 0) (drained blamed : List String) (state : RunState)
      (why : Detail) (s : Progress W)
      → IsStop state
      → Ends Q Stops (bail pool hooks drained blamed state why s)
  unfolding bail
  bail-Stops Q drained blamed state why s stop =
      Ends-bind Goes Q Stops (put_back pool hooks drained blamed) _ s
        (put_back-Goes Stops drained blamed s) (λ _ t _. stop)
