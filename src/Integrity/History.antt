-- ===== src/Integrity/History.antt =====
-- Heartbeats of the whole fleet, as backend/app.py passes them on: one that carries a measurement
-- goes to `evaluate`, and one that carries none to `note_missing`.
use sysible_controller.Prelude.{
  ◌≡◌, refl, ℕ, String, Bool, true, false, Option, none, some, List, [], ◌∷◌, All, Dict, lookup,
  insert, ◌==◌, arith, eq_iff, lookup-insert, is_some, Bool-cases, inl, inr, ltb, leb, ◌+◌,
}
use sysible_controller.Integrity.State.{
  Measurement, Mismatch, Host, window_open, saved, compare, is_quarantine,
}
use sysible_controller.Integrity.Evaluate.{
  evaluate, evaluate_record, evaluate_sealed, evaluate_compared, seal_or_judge, evaluate_found,
  note_missing, note_found, note_timer, timer, judge, is_changed,
}

pub data Beat : Type 0 where
  measures : Bool → String → Measurement → ℕ → ℕ → Beat
  misses : Bool → String → ℕ → ℕ → ℕ → Beat

unfoldable pub beat : Beat → Dict Host → Dict Host
beat (measures saves host m now later) data' = (evaluate saves host m now later data').1
beat (misses saves host grace now later) data' = (note_missing saves host grace now later data').1

unfoldable pub beats : List Beat → Dict Host → Dict Host
unfolding beat
beats [] data' = data'
beats (b ∷ bs) data' = beats bs (beat b data')

-- when it reads the clock for the window
abbrev pub clock : Beat → ℕ
clock (measures _ _ _ now _) = now
clock (misses _ _ _ now _) = now

-- whether an update window is open at this time
abbrev pub opens : Option ℕ → ℕ → Bool
opens until now = elim until [ none ↦ false | some t ↦ ltb now t ]

-- The record of `host` has this baseline and this update window.
pub record IsPinned (host : String) (b : Measurement) (until : Option ℕ) (data' : Dict Host)
    : Type 0 where
  pub rec : Host
  pub found : lookup host data' ≡ some rec
  pub baseline : rec.baseline ≡ some b
  pub reseal_until : rec.reseal_until ≡ until

module _ (host : String) (b : Measurement) (until : Option ℕ) where
  insert-IsPinned :
      (k : String) (new : Host) (saves : Bool) (data' : Dict Host)
      → (host ≡ k → (new.baseline ≡ some b) × (new.reseal_until ≡ until))
      → IsPinned host b until data'
      → IsPinned host b until (saved saves (insert k new data') data')
  insert-IsPinned k new false data' h p = p
  insert-IsPinned k new true data' h p = elim (Bool-cases (host == k)) [
    | inl same ↦
        let (at, until') = h (ground (arith, eq_iff host k, same)) in
        record {
          rec = new;
          found = rw (lookup-insert, same) refl;
          baseline = at;
          reseal_until = until';
        }
    | inr other ↦ record {
      rec = p.rec;
      found = rw (lookup-insert, other) p.found;
      baseline = p.baseline;
      reseal_until = p.reseal_until;
    }
  ]

  judge-keeps :
      (rec : Host) (ms : List Mismatch) (later : ℕ)
      → (rec.baseline ≡ some b) × (rec.reseal_until ≡ until)
      → ((judge rec ms later).baseline ≡ some b) × ((judge rec ms later).reseal_until ≡ until)
  judge-keeps rec [] later h = h
  judge-keeps rec (m ∷ ms) later h = h

  compared-IsPinned :
      (saves : Bool) (k : String) (o : Option (List Mismatch)) (later : ℕ) (cleared : Bool)
      (rec : Host) (data' : Dict Host)
      → (host ≡ k → (rec.baseline ≡ some b) × (rec.reseal_until ≡ until))
      → IsPinned host b until data'
      → IsPinned host b until (evaluate_compared saves k o later cleared rec data').1
  unfolding evaluate_compared
  compared-IsPinned saves k none later cleared rec data' h p = p
  compared-IsPinned saves k (some ms) later cleared rec data' h p =
      elim (Bool-cases (is_changed rec ms cleared)) [
        | inl changed ↦
            rw changed (insert-IsPinned k _ saves data' (λ e. judge-keeps rec ms later (h e)) p)
        | inr same ↦ rw same p
      ]

  seal-IsPinned :
      (saves : Bool) (k : String) (m : Measurement) (later : ℕ) (cleared : Bool)
      (o : Option Measurement) (rec : Host) (data' : Dict Host)
      → (host ≡ k → (o ≡ some b) × (rec.baseline ≡ some b) × (rec.reseal_until ≡ until))
      → IsPinned host b until data'
      → IsPinned host b until (seal_or_judge saves k m later cleared o rec data').1
  unfolding seal_or_judge evaluate_sealed
  seal-IsPinned saves k m later cleared none rec data' h p =
      insert-IsPinned k _ saves data' (λ e. cc ((h e).0)) p
  seal-IsPinned saves k m later cleared (some base) rec data' h p =
      compared-IsPinned saves k (compare m base) later cleared rec data' (λ e. ((h e).1, (h e).2)) p

  record-IsPinned :
      (saves : Bool) (k : String) (m : Measurement) (now later : ℕ) (cleared : Bool) (rec : Host)
      (data' : Dict Host)
      → (host ≡ k
          → (rec.baseline ≡ some b) × (rec.reseal_until ≡ until) × (window_open rec now ≡ false))
      → IsPinned host b until data'
      → IsPinned host b until (evaluate_record saves k m now later cleared rec data').1
  unfolding evaluate_record
  record-IsPinned saves k m now later cleared rec data' h p =
      elim (Bool-cases (window_open rec now)) [
        | inl opened ↦ rw opened (insert-IsPinned k _ saves data' (λ e. cc ((h e).2, opened)) p)
        | inr shut ↦ rw shut (
            seal-IsPinned saves k m later cleared rec.baseline rec data'
              (λ e. ((h e).0, (h e).0, (h e).1)) p)
      ]

  -- what is at another name, or is the pinned record
  at-IsPinned :
      (k : String) (data' : Dict Host)
      → IsPinned host b until data'
      → (rec : Host) → lookup k data' ≡ some rec
      → host ≡ k
      → (rec.baseline ≡ some b) × (rec.reseal_until ≡ until)
  at-IsPinned k data' p rec found e =
      let same : some rec ≡ some p.rec = cc (found, e, p.found) in
      let at : rec ≡ p.rec = cc same in (cc (at, p.baseline), cc (at, p.reseal_until))

  found-IsPinned :
      (saves : Bool) (k : String) (m : Measurement) (now later : ℕ) (o : Option Host)
      (data' : Dict Host)
      → lookup k data' ≡ o
      → opens until now ≡ false
      → IsPinned host b until data'
      → IsPinned host b until (evaluate_found saves k m now later o data').1
  unfolding evaluate_found
  found-IsPinned saves k m now later none data' found shut p =
      insert-IsPinned k _ saves data' (λ e. cc (found, e, p.found)) p
  found-IsPinned saves k m now later (some rec) data' found shut p =
      record-IsPinned saves k m now later (is_some rec.missing_since)
        (record rec { missing_since = none }) data'
        (λ e. let at = at-IsPinned k data' p rec found e in (at.0, at.1, rw at.1 shut)) p

  timer-IsPinned :
      (saves : Bool) (k : String) (grace later : ℕ) (o : Option ℕ) (rec : Host) (data' : Dict Host)
      → (host ≡ k → (rec.baseline ≡ some b) × (rec.reseal_until ≡ until))
      → IsPinned host b until data'
      → IsPinned host b until (note_timer saves k grace later o rec data').1
  unfolding note_timer
  timer-IsPinned saves k grace later none rec data' h p = insert-IsPinned k _ saves data' h p
  timer-IsPinned saves k grace later (some started) rec data' h p =
      elim (Bool-cases (leb (started + grace) later)) [
        | inl due ↦ rw due (insert-IsPinned k _ saves data' h p)
        | inr early ↦ rw early p
      ]

  note_found-IsPinned :
      (saves : Bool) (k : String) (grace now later : ℕ) (o : Option Host) (data' : Dict Host)
      → lookup k data' ≡ o
      → IsPinned host b until data'
      → IsPinned host b until (note_found saves k grace now later o data').1
  unfolding note_found
  note_found-IsPinned saves k grace now later none data' found p = p
  note_found-IsPinned saves k grace now later (some rec) data' found p =
      let counts =
        timer-IsPinned saves k grace later (timer rec.missing_since) rec data'
          (at-IsPinned k data' p rec found) p in
      elim (Bool-cases (is_some rec.baseline)) [
        | inr e ↦ rw e p
        | inl e ↦ elim (Bool-cases (window_open rec now)) [
          | inl w ↦ rw (e, w) p
          | inr w ↦ elim (Bool-cases (is_quarantine rec.status)) [
            | inl q ↦ rw (e, w, q) p
            | inr q ↦ rw (e, w, q) counts
          ]
        ]
      ]

  beat-IsPinned :
      (x : Beat) (data' : Dict Host)
      → opens until (clock x) ≡ false
      → IsPinned host b until data'
      → IsPinned host b until (beat x data')
  unfolding beat evaluate note_missing
  beat-IsPinned (measures saves k m now later) data' shut p =
      found-IsPinned saves k m now later (lookup k data') data' refl shut p
  beat-IsPinned (misses saves k grace now later) data' shut p =
      note_found-IsPinned saves k grace now later (lookup k data') data' refl p

  pub beats-IsPinned :
      (xs : List Beat) (data' : Dict Host)
      → All (λ x. opens until (clock x) ≡ false) xs
      → IsPinned host b until data'
      → IsPinned host b until (beats xs data')
  unfolding beats
  beats-IsPinned [] data' shut p = p
  beats-IsPinned (x ∷ xs) data' shut p =
      let ih = beats-IsPinned xs in ih (beat x data') shut.1 (beat-IsPinned x data' shut.0 p)
