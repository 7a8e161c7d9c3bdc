-- ===== src/Rolling/Run.antt =====
-- webgui/rolling.py: `run`, phase by phase.
use sysible_controller.Prelude.{
  ℕ, ◌+◌, String, Bool, false, Option, none, some, List, [], ◌∷◌, ◌++◌, length, select, member, add,
  discard, sorted, ltb, not, ◌||◌, if◌then◌else◌,
}
use sysible_controller.Rolling.Events.{Phase, Status, Event, Detail, RunState, Outcome, error}
use sysible_controller.Rolling.Base.{
  Pool, Hooks, Progress, Flow, go, halt, ◌>>=◌, ◌>>◌, pure, safe, status, batches, healthy_of,
  probe_all, verdict,
}

-- the dictionary that `result` builds, and the world as the run leaves it
pub record Report (W : Type 0) : Type 0 where
  pub state : RunState
  pub detail : Detail
  pub done : List String
  pub members : List String
  pub drained : List String
  pub skipped : List String
  pub events : List Event
  pub world : W

module _ {W : Type 0} where
  unfoldable pub result : List String → RunState → Detail → Progress W → Report W
  unfolding sorted
  result members state detail s = record {
    state = state;
    detail = detail;
    done = s.finished;
    members = members;
    drained = sorted s.left_drained;
    skipped = select (λ m. not (member m s.finished || member m s.left_drained)) members;
    events = s.events;
    world = s.world;
  }

  abbrev pub begin : W → List String → Progress W
  begin w healthy = record {
    world = w;
    events = [];
    healthy_now = healthy;
    finished = [];
    left_drained = [];
  }

  unfoldable pub close : List String → Flow W (Unit {0}) → Report W
  unfolding result
  close members (go _ s) =
      result members RunState.done (Detail.rolled (length s.finished) (length members)) s
  close members (halt state detail s) = result members state detail s

abbrev first_of_group : List String → String
first_of_group [] = ""
first_of_group (h ∷ _) = h

module _ {W : Type 0} (pool : Pool W) (hooks : Hooks W) where
  unfoldable pub emit : String → Phase → Status → Detail → Progress W → Flow W (Unit {0})
  emit host phase st detail s =
      let e : Event = record {
        host = host;
        phase = phase;
        status = st;
        detail = detail;
        ts = hooks.time s.world;
      } in
      go tt (record s {
        events = s.events ++ e ∷ [];
        world = elim hooks.on_event [ none ↦ s.world | some listen ↦ listen e s.world ];
      })

  unfoldable pub stop_requested : Progress W → Flow W Bool
  stop_requested s = elim hooks.cancelled [
    | none ↦ go false s
    | some poll ↦
        let (answer, w) = poll s.world in
        go (elim answer [ none ↦ false | some b ↦ b ]) (record s { world = w })
  ]

  -- `_safe(provider, host)`
  unfoldable pub call : (String → W → Outcome × W) → String → Progress W → Flow W (Bool × String)
  unfolding safe
  call provider host s =
      let (answer, w) = provider host s.world in go (safe answer) (record s { world = w })

  -- `ok, detail = _safe(provider, host); emit(host, phase, "ok" if ok else "error", detail)`
  unfoldable pub attempt :
      Phase → (String → W → Outcome × W) → String → Progress W → Flow W (Bool × String)
  unfolding emit call
  attempt phase provider host = do
    (ok, detail) ← call provider host
    emit host phase (status ok) (Detail.text detail)
    pure (ok, detail)

  -- `left_drained.discard(h); healthy_now.add(h)`
  unfoldable pub back_in_rotation : String → Progress W → Flow W (Unit {0})
  back_in_rotation h s =
      go tt
        (record s { left_drained = discard h s.left_drained; healthy_now = add h s.healthy_now })

  -- `healthy_now.discard(host); left_drained.add(host)`
  unfoldable pub out_of_rotation : String → Progress W → Flow W (Unit {0})
  out_of_rotation h s =
      go tt
        (record s { healthy_now = discard h s.healthy_now; left_drained = add h s.left_drained })

  -- the body of the loop in `bail`
  unfoldable pub put_back_one : String → List String → Progress W → Flow W (Unit {0})
  put_back_one h blamed = if member h blamed then pure tt else do
    (ok_h, d_h) ← attempt Phase.health pool.health h
    if not ok_h then pure tt else do
      (ok_u, d_u) ← attempt Phase.undrain pool.undrain h
      if ok_u then back_in_rotation h else pure tt

  unfoldable pub put_back : List String → List String → Progress W → Flow W (Unit {0})
  put_back [] blamed = pure tt
  put_back (h ∷ drained) blamed = do put_back_one h blamed; put_back drained blamed

  unfoldable pub bail :
      {A : Type 0} → List String → List String → RunState → Detail → Progress W → Flow W A
  bail drained blamed state detail = do put_back drained blamed; halt state detail

  unfoldable pub drain_phase : List String → List String → Progress W → Flow W (List String)
  drain_phase [] drained = pure drained
  drain_phase (host ∷ group) drained = do
    (ok, detail) ← attempt Phase.drain pool.drain host
    if ok
        then (do out_of_rotation host; drain_phase group (drained ++ host ∷ []))
        else bail drained [] RunState.failed (Detail.not_drained host detail)

  unfoldable pub act_phase : List String → List String → Progress W → Flow W (Unit {0})
  act_phase drained [] = pure tt
  act_phase drained (host ∷ rest) = do
    stop ← stop_requested
    if stop then bail drained [] RunState.cancelled Detail.by_operator else do
      (ok, detail) ← attempt Phase.act pool.act host
      if ok
          then act_phase drained rest
          else bail drained (host ∷ []) RunState.failed (Detail.not_acted host detail)

  unfoldable pub settle_each :
      (String → W → Outcome × W) → List String → List String → Progress W → Flow W (Unit {0})
  settle_each settle drained [] = pure tt
  settle_each settle drained (host ∷ rest) = do
    (ok, detail) ← attempt Phase.settle settle host
    if ok
        then settle_each settle drained rest
        else bail drained (host ∷ []) RunState.failed (Detail.never_back host detail)

  unfoldable pub settle_with :
      Option (String → W → Outcome × W) → List String → Progress W → Flow W (Unit {0})
  settle_with none drained = pure tt
  settle_with (some settle) drained = settle_each settle drained drained

  -- `if pool.settle:`
  abbrev pub settle_phase : List String → Progress W → Flow W (Unit {0})
  settle_phase drained = settle_with pool.settle drained

  unfoldable pub health_phase : List String → List String → Progress W → Flow W (Unit {0})
  health_phase drained [] = pure tt
  health_phase drained (host ∷ rest) = do
    (ok, detail) ← attempt Phase.health pool.health host
    if ok
        then health_phase drained rest
        else bail drained (host ∷ []) RunState.failed (Detail.not_healthy host detail)

  -- `done.append(host)`
  unfoldable pub record_done : String → Progress W → Flow W (Unit {0})
  record_done h s = go tt (record s { finished = s.finished ++ h ∷ [] })

  unfoldable pub undrain_phase : List String → List String → Progress W → Flow W (Unit {0})
  undrain_phase drained [] = pure tt
  undrain_phase drained (host ∷ rest) = do
    (ok, detail) ← attempt Phase.undrain pool.undrain host
    if ok
        then (do back_in_rotation host; record_done host; undrain_phase drained rest)
        else bail drained (host ∷ []) RunState.failed (Detail.not_returned host detail)

  -- RULE 1, on the pool as it is when the group starts
  unfoldable pub guard_capacity : ℕ → List String → Progress W → Flow W (Unit {0})
  guard_capacity min_healthy group s =
      let taking = select (λ h. member h s.healthy_now) group in
      let why = Detail.too_few group (length s.healthy_now) (length taking) min_healthy in
      if ltb (length s.healthy_now) (min_healthy + length taking)
      then (do emit (first_of_group group) Phase.drain error why; halt RunState.failed why) s
      else go tt s

  -- what a group goes through once it is out of rotation
  unfoldable pub maintain : List String → Progress W → Flow W (Unit {0})
  maintain drained = do
    act_phase drained drained
    settle_phase drained
    health_phase drained drained
    undrain_phase drained drained

  unfoldable pub roll_group : ℕ → List String → Progress W → Flow W (Unit {0})
  roll_group min_healthy group = do
    stop ← stop_requested
    if stop
        then halt RunState.cancelled Detail.by_operator
        else do guard_capacity min_healthy group; drained ← drain_phase group []; maintain drained

  unfoldable pub roll_groups : ℕ → List (List String) → Progress W → Flow W (Unit {0})
  roll_groups min_healthy [] = pure tt
  roll_groups min_healthy (group ∷ groups) = do
    roll_group min_healthy group
    roll_groups min_healthy groups

  unfoldable pub refuse : Detail → Progress W → Flow W (Unit {0})
  unfolding emit
  refuse why = do emit "" Phase.drain error why; halt RunState.refused why

  -- from the preflight's answer on
  unfoldable pub proceed : List String → ℕ → ℕ → Option Detail → List String → W → Report W
  unfolding close refuse
  proceed members max_unavailable min_healthy (some why) healthy w =
      close members (refuse why (begin w []))
  proceed members max_unavailable min_healthy none healthy w =
      close members (roll_groups min_healthy (batches members max_unavailable) (begin w healthy))

  unfoldable pub run : List String → ℕ → Bool → ℕ → W → Report W
  unfolding proceed
  run members max_unavailable allow_degraded min_healthy w =
      let (states, w') = probe_all pool.health members [] w in
      proceed members max_unavailable min_healthy (verdict members allow_degraded states)
        (healthy_of states) w'
