-- ===== src/Rolling/Truth.antt =====
-- The log tells the truth: the invariant that ties the run's sets to what its log says, with the
-- bounds that hold after every event.
pub mod Phases
pub mod Group
use sysible_controller.Prelude.{
  ℕ, suc, not, if◌then◌else◌, ◌+◌, ◌≤◌, String, ◌≡◌, refl, ap, Bool, true, false, List, [], ◌∷◌,
  ◌++◌, length, select, member, add, discard, IsDistinct, arith, inl, inr, Bool-cases,
  length-discard, discard-IsDistinct, add-IsDistinct, length-add-le, member-discard, eq_iff, sym,
  ◌∙◌,
}
use sysible_controller.Rolling.Events.{Phase, Status, Event, Detail, RunState, fine, error}
use sysible_controller.Rolling.Base.{
  Pool, Hooks, Progress, Flow, go, halt, ◌>>=◌, ◌>>◌, pure, status, safe,
}
use sysible_controller.Rolling.Run.{
  emit, call, put_back_one, put_back, bail, back_in_rotation, out_of_rotation, drain_phase,
}
use sysible_controller.Rolling.Replay.{
  replay, Always, serve, exclude, serving_after, out_after, replay-snoc, Always-snoc,
}
use sysible_controller.Rolling.Ends.{
  Ends, Ends-bind, Ends-attempt, Ends-stop_requested, Ends-if, Logged, SameBooks,
}

-- At least `floor` hosts serve and at most `cap` are out, after each event of the log.
pub record IsTrue {W : Type 0} (floor cap : ℕ) (start : List String) (s : Progress W) : Type 0 where
  pub distinct : IsDistinct s.healthy_now
  pub serving : replay serve start s.events ≡ s.healthy_now
  pub out : replay exclude [] s.events ≡ s.left_drained
  pub enough : Always serve (λ hosts. floor ≤ length hosts) start s.events
  pub few : Always exclude (λ hosts. length hosts ≤ cap) [] s.events
  pub enough_now : floor ≤ length s.healthy_now
  pub few_now : length s.left_drained ≤ cap

pub length-discard-le : (x : String) (s : List String) → length (discard x s) ≤ length s
length-discard-le x [] = omega arith
length-discard-le x (y ∷ ys) = ground (arith, length-discard-le x ys)

module _ {W : Type 0} (floor cap : ℕ) (start : List String) where
  abbrev pub Kept : {A : Type 0} → A → Progress W → Type 0
  Kept a s = IsTrue floor cap start s

  abbrev pub Halted : RunState → Detail → Progress W → Type 0
  Halted state why s = IsTrue floor cap start s

  -- One more event, with the sets moved as the event says.
  pub event-IsTrue :
      (s t : Progress W) (e : Event)
      → IsTrue floor cap start s
      → t.events ≡ s.events ++ e ∷ []
      → t.healthy_now ≡ serve s.healthy_now e
      → t.left_drained ≡ exclude s.left_drained e
      → floor ≤ length (serve s.healthy_now e)
      → length (exclude s.left_drained e) ≤ cap
      → IsDistinct (serve s.healthy_now e)
      → IsTrue floor cap start t
  event-IsTrue s t e inv grown healthy left enough few distinct = record {
    distinct = rw healthy distinct;
    serving = rw (grown, replay-snoc serve start s.events e, inv.serving) (sym healthy);
    out = rw (grown, replay-snoc exclude [] s.events e, inv.out) (sym left);
    enough = rw grown (Always-snoc serve _ start s.events e inv.enough (rw inv.serving enough));
    few = rw grown (Always-snoc exclude _ [] s.events e inv.few (rw inv.out few));
    enough_now = rw healthy enough;
    few_now = rw left few;
  }

  pub SameBooks-IsTrue :
      (s t : Progress W) → SameBooks s t → IsTrue floor cap start s → IsTrue floor cap start t
  SameBooks-IsTrue s t same inv = record {
    distinct = rw same.healthy inv.distinct;
    serving = rw (same.events, same.healthy) inv.serving;
    out = rw (same.events, same.left) inv.out;
    enough = rw same.events inv.enough;
    few = rw same.events inv.few;
    enough_now = rw same.healthy inv.enough_now;
    few_now = rw same.left inv.few_now;
  }

  -- An event that moves no host.
  pub neutral-IsTrue :
      (s t : Progress W) (h : String) (p : Phase) (st : Status)
      → Logged s h p st t
      → ((hosts : List String) → serving_after p st h hosts ≡ hosts)
      → ((hosts : List String) → out_after p st h hosts ≡ hosts)
      → IsTrue floor cap start s
      → IsTrue floor cap start t
  neutral-IsTrue s t h p st l serves excludes inv =
      let serving : serve s.healthy_now l.entry ≡ s.healthy_now =
        rw (l.at_phase, l.with_status, l.at_host) (serves s.healthy_now) in
      let out : exclude s.left_drained l.entry ≡ s.left_drained =
        rw (l.at_phase, l.with_status, l.at_host) (excludes s.left_drained) in
      event-IsTrue s t l.entry inv l.grown (l.healthy ∙ sym serving) (l.left ∙ sym out)
        (rw serving inv.enough_now) (rw out inv.few_now) (rw serving inv.distinct)

  -- A host that came back.
  pub back-IsTrue :
      (s t : Progress W) (h : String)
      → Logged s h Phase.undrain fine t
      → IsTrue floor cap start s
      → IsTrue floor cap start
          (record t { left_drained = discard h t.left_drained; healthy_now = add h t.healthy_now })
  back-IsTrue s t h l inv =
      let serving : serve s.healthy_now l.entry ≡ add h s.healthy_now =
        rw (l.at_phase, l.with_status, l.at_host) refl in
      let out : exclude s.left_drained l.entry ≡ discard h s.left_drained =
        rw (l.at_phase, l.with_status, l.at_host) refl in
      event-IsTrue s _ l.entry inv l.grown (ap (add h) l.healthy ∙ sym serving)
        (ap (discard h) l.left ∙ sym out)
        (rw serving (omega (arith, inv.enough_now, length-add-le h s.healthy_now)))
        (rw out (omega (arith, inv.few_now, length-discard-le h s.left_drained)))
        (rw serving (add-IsDistinct h s.healthy_now inv.distinct))

  -- A host that was taken out, where there is room for it.
  pub out-IsTrue :
      (s t : Progress W) (h : String)
      → Logged s h Phase.drain fine t
      → floor ≤ length (discard h s.healthy_now)
      → length (add h s.left_drained) ≤ cap
      → IsTrue floor cap start s
      → IsTrue floor cap start
          (record t { healthy_now = discard h t.healthy_now; left_drained = add h t.left_drained })
  out-IsTrue s t h l enough few inv =
      let serving : serve s.healthy_now l.entry ≡ discard h s.healthy_now =
        rw (l.at_phase, l.with_status, l.at_host) refl in
      let out : exclude s.left_drained l.entry ≡ add h s.left_drained =
        rw (l.at_phase, l.with_status, l.at_host) refl in
      event-IsTrue s _ l.entry inv l.grown (ap (discard h) l.healthy ∙ sym serving)
        (ap (add h) l.left ∙ sym out) (rw serving enough) (rw out few)
        (rw serving (discard-IsDistinct h s.healthy_now inv.distinct))

  module _ (pool : Pool W) (hooks : Hooks W) where
    -- `health`, `act` and `settle` move no host, whatever they answer.
    put_back_one-IsTrue :
        (h : String) (blamed : List String) (s : Progress W)
        → IsTrue floor cap start s
        → Ends Kept Halted (put_back_one pool hooks h blamed s)
    unfolding put_back_one back_in_rotation
    put_back_one-IsTrue h blamed s inv =
        Ends-if pool hooks Kept Halted (member h blamed) _ _ s (λ _. inv)
          λ _. Ends-attempt pool hooks Kept Halted Phase.health pool.health h _ s λ ok d t l.
            let inv' =
              neutral-IsTrue s t h Phase.health (status ok) l (λ _. refl) (λ _. refl) inv in
            Ends-if pool hooks Kept Halted (not ok) _ _ t (λ _. inv')
              λ _.
                Ends-attempt pool hooks Kept Halted Phase.undrain pool.undrain h _ t
                  λ ok' d' u l'. undrained ok' u t l' inv'
      where
        undrained :
            (ok : Bool) (u t : Progress W)
            → Logged t h Phase.undrain (status ok) u
            → IsTrue floor cap start t
            → Ends
                (Kept {A = Unit {0}})
                Halted
                ((if ok then back_in_rotation pool hooks h else pure tt) u)
        undrained true u t l inv = back-IsTrue t u h l inv
        undrained false u t l inv =
            neutral-IsTrue t u h Phase.undrain error l (λ _. refl) (λ _. refl) inv

    pub put_back-IsTrue :
        (drained blamed : List String) (s : Progress W)
        → IsTrue floor cap start s
        → Ends Kept Halted (put_back pool hooks drained blamed s)
    unfolding put_back
    put_back-IsTrue [] blamed s inv = inv
    put_back-IsTrue (h ∷ drained) blamed s inv =
        Ends-bind Kept Kept Halted (put_back_one pool hooks h blamed) _ s
          (put_back_one-IsTrue h blamed s inv) (λ _ t inv'. put_back-IsTrue drained blamed t inv')

    pub bail-IsTrue :
        (A : Type 0) (drained blamed : List String) (state : RunState) (why : Detail)
        (s : Progress W)
        → IsTrue floor cap start s
        → Ends (Kept {A = A}) Halted (bail pool hooks drained blamed state why s)
    unfolding bail
    bail-IsTrue A drained blamed state why s inv =
        Ends-bind Kept Kept Halted (put_back pool hooks drained blamed) _ s
          (put_back-IsTrue drained blamed s inv) (λ _ t inv'. inv')
