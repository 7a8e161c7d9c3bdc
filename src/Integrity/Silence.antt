-- ===== src/Integrity/Silence.antt =====
-- Evasion by silence: an agent that stops reporting is quarantined too.
use sysible_controller.Prelude.{
  ◌≡◌, refl, ap, ◌∙◌, ◌≤◌, ℕ, suc, ◌+◌, String, true, false, none, some, Dict, lookup, insert,
  arith, lookup-insert_self, is_some, Bool-cases, inl, inr, leb,
}
use sysible_controller.Integrity.State.{
  Measurement, Host, is_quarantine, is_quarantined, quarantine_of, window_open,
}
use sysible_controller.Integrity.Evaluate.{note_missing, note_found, note_timer, timer}
use sysible_controller.Integrity.History.{opens}
use sysible_controller.Integrity.Tamper.{is_quarantined-found}

module _ (host : String) (b : Measurement) (grace now later : ℕ) where
  quarantined_stands :
      (rec : Host) (data' : Dict Host)
      → lookup host data' ≡ some rec
      → is_quarantine rec.status ≡ true
      → (note_missing true host grace now later data').1 ≡ data'
  unfolding note_missing note_found
  quarantined_stands rec data' found q = elim (Bool-cases (is_some rec.baseline)) [
    | inr e ↦ rw (found, e) refl
    | inl e ↦ elim (Bool-cases (window_open rec now)) [
      | inl w ↦ rw (found, e, w) refl
      | inr w ↦ rw (found, e, w, q) refl
    ]
  ]

  miss-starts :
      (rec : Host) (data' : Dict Host)
      → lookup host data' ≡ some rec
      → rec.baseline ≡ some b
      → opens rec.reseal_until now ≡ false
      → timer rec.missing_since ≡ none
      → is_quarantine rec.status ≡ false
      → (note_missing true host grace now later data').1
        ≡ insert host (record rec { missing_since = some later }) data'
  unfolding note_missing note_found note_timer
  miss-starts rec data' found sealed shut fresh fine =
      rw (found, ap is_some sealed, shut, fine, fresh) refl

  miss-ends :
      (rec : Host) (data' : Dict Host) (started : ℕ)
      → lookup host data' ≡ some rec
      → rec.baseline ≡ some b
      → opens rec.reseal_until now ≡ false
      → timer rec.missing_since ≡ some started
      → is_quarantine rec.status ≡ false
      → started + grace ≤ later
      → is_quarantined host (note_missing true host grace now later data').1 ≡ true
  unfolding note_missing note_found note_timer is_quarantined quarantine_of
  miss-ends rec data' started found sealed shut runs fine due =
      let ripe : leb (started + grace) later ≡ true = ground arith in
      rw (found, ap is_some sealed, shut, fine, runs, ripe, lookup-insert_self) refl

-- An agent cannot evade the check by not measuring. A host has a baseline, no missing timer, and no
-- open update window at either time. A heartbeat without a measurement, and another one at least the
-- grace later, both saved, leave it in quarantine.
pub silence_caught :
    (host : String) (b : Measurement) (grace now later now' later' : ℕ) (rec : Host)
    (data' : Dict Host)
    → lookup host data' ≡ some rec
    → rec.baseline ≡ some b
    → rec.missing_since ≡ none
    → opens rec.reseal_until now ≡ false
    → opens rec.reseal_until now' ≡ false
    → suc later + grace ≤ later'
    → is_quarantined host
        (note_missing true host grace now' later'
          (note_missing true host grace now (suc later) data').1).1
      ≡ true
silence_caught host b grace now later now' later' rec data' found sealed fresh shut shut' due =
    elim (Bool-cases (is_quarantine rec.status)) [
      | inl q ↦
          rw
            (
              quarantined_stands host b grace now (suc later) rec data' found q,
              quarantined_stands host b grace now' later' rec data' found q,
            )
            (is_quarantined-found host rec data' found ∙ q)
      | inr fine ↦
          rw
            (miss-starts host b grace now (suc later) rec data' found sealed shut (ap timer fresh)
              fine)
            (miss-ends host b grace now' later' (record rec { missing_since = some (suc later) }) _
              (suc later) (lookup-insert_self host _ data') sealed shut' refl fine due)
    ]
