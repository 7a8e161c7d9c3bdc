-- ===== src/Integrity/Tests.antt =====
-- One host and its baseline, and the theorems at it.
use sysible_controller.Prelude.{
  ◌≡◌, ◌↔◌, refl, false, true, some, [], ◌∷◌, List, Dict, lookup, insert, arith,
}
use sysible_controller.Integrity.State.{
  Manifest, manifest, odd, other, compare_manifests, Host, is_quarantined, quarantine_of, compare,
  changed_files, new_files,
}
use sysible_controller.Integrity.Evaluate.{
  evaluate, evaluate_found, evaluate_record, seal_or_judge, evaluate_sealed, evaluate_compared,
  failed, is_changed, note_missing, note_found, note_timer, seal,
}
use sysible_controller.Integrity.Compare.{IsSame, compare-nil_iff}
use sysible_controller.Integrity.History.{Beat, measures, misses, beat, beats}
use sysible_controller.Integrity.Tamper.{IsDetected, tamper_caught}
use sysible_controller.Integrity.Silence.{silence_caught}

abbrev shipped : Manifest
shipped = record { version = some "2.1"; files = ("agent.py", "aa11") ∷ ("shell.py", "bb22") ∷ [] }

-- the same files in another order, and with one of them edited
abbrev reordered : Manifest
reordered = record {
  version = some "2.1";
  files = ("shell.py", "bb22") ∷ ("agent.py", "aa11") ∷ [];
}

abbrev edited : Manifest
edited = record { version = some "2.1"; files = ("agent.py", "ee55") ∷ ("shell.py", "bb22") ∷ [] }

abbrev fleet : Dict Host
fleet = ("web1", seal (manifest shipped) 50) ∷ []

abbrev traffic : List Beat
traffic =
    measures true "web1" (manifest edited) 60 60
    ∷ measures false "web2" (manifest edited) 61 61
    ∷ misses true "web1" 900 62 62
    ∷ []

-- An edited file quarantines the host, and the shipped ones bring it back.
edited_then_reordered :
    (is_quarantined "web1" (evaluate true "web1" (manifest edited) 70 70 (beats traffic fleet)).1
      ≡ true)
    × (is_quarantined "web1"
          (evaluate true "web1" (manifest reordered) 71 71 (beats traffic fleet)).1
        ≡ false)
unfolding beats beat evaluate evaluate_found evaluate_record seal_or_judge evaluate_sealed
    evaluate_compared is_changed note_missing note_found note_timer compare compare_manifests
    changed_files new_files is_quarantined quarantine_of lookup insert
edited_then_reordered = (refl, refl)

compare-nil_iff_example :
    (compare (manifest reordered) (manifest shipped) ≡ some []) ↔ IsSame reordered shipped
compare-nil_iff_example = compare-nil_iff reordered shipped (refl, (refl, tt))

-- A report whose files are a list is an error, and leaves the host as it was; no dictionary at all is malformed.
odd_reports :
    let before = beats traffic fleet in
    ((evaluate true "web1" (odd (some "2.1") (some ("agent.py", []))) 70 70 before).0 ≡ failed)
    × (is_quarantined "web1"
          (evaluate true "web1" (odd (some "2.1") (some ("agent.py", []))) 70 70 fleet).1
        ≡ false)
    × (is_quarantined "web1" (evaluate true "web1" other 70 70 fleet).1 ≡ true)
unfolding edited_then_reordered
odd_reports = (refl, refl, refl)

tamper_caught_example :
    IsDetected "web1"
      (manifest edited)
      shipped
      (beats traffic fleet)
      (evaluate true "web1" (manifest edited) 70 70 (beats traffic fleet))
unfolding lookup
tamper_caught_example =
    tamper_caught "web1" shipped (seal (manifest shipped) 50) traffic fleet (manifest edited) 70 70
      refl refl (refl, (refl, tt)) (refl, (refl, (refl, tt))) refl

silence_caught_example :
    is_quarantined "web1"
      (note_missing true "web1" 900 1100 1100 (note_missing true "web1" 900 100 100 fleet).1).1
    ≡ true
unfolding lookup
silence_caught_example =
    silence_caught "web1" (manifest shipped) 900 100 99 1100 1100 (seal (manifest shipped) 50) fleet
      refl refl refl refl refl (omega arith)
