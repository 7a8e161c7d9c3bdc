-- ===== src/Integrity/Tamper.antt =====
-- Tampering is found, and only tampering: what a measurement does to the quarantine.
use sysible_controller.Prelude.{
  ◌≡◌, ◌↔◌, refl, sym, ◌∙◌, ℕ, String, Bool, true, false, Option, none, some, List, [], ◌∷◌, ◌++◌,
  map, All, ◌⊎◌, Dict, lookup, keys, IsDistinct, arith, lookup-insert_self, is_some, Bool-cases,
  inl, inr,
}
use sysible_controller.Integrity.State.{
  Manifest, manifest, odd, other, Measurement, Mismatch, malformed, new_file, version_mismatch,
  Host, quarantine_of, compare_odd, compare, is_quarantine, is_quarantined,
}
use sysible_controller.Integrity.Evaluate.{
  evaluate, evaluate_found, evaluate_record, seal_or_judge, evaluate_sealed, evaluate_compared,
  verdict, judge, is_changed, Answer, failed,
}
use sysible_controller.Integrity.Compare.{IsSame, manifests_nil}
use sysible_controller.Integrity.History.{Beat, beats, clock, opens, IsPinned, beats-IsPinned}

abbrev any_mismatch : List Mismatch → Bool
any_mismatch ms = is_quarantine (some (verdict ms))

judge-verdict :
    (rec : Host) (ms : List Mismatch) (later : ℕ)
    → is_quarantine (judge rec ms later).status ≡ any_mismatch ms
judge-verdict rec [] later = refl
judge-verdict rec (m ∷ ms) later = refl

unchanged-verdict :
    (rec : Host) (ms : List Mismatch) (cleared : Bool)
    → is_changed rec ms cleared ≡ false
    → is_quarantine rec.status ≡ any_mismatch ms
unfolding is_changed
unchanged-verdict rec ms cleared same = ground (arith, same)

pub is_quarantined-found :
    (host : String) (rec : Host) (data' : Dict Host)
    → lookup host data' ≡ some rec
    → is_quarantined host data' ≡ is_quarantine rec.status
unfolding is_quarantined quarantine_of
is_quarantined-found host rec data' found = rw found refl

module _ (host : String) (m base : Measurement) where
  compared-verdict :
      (ms : List Mismatch) (later : ℕ) (cleared : Bool) (rec : Host) (data' : Dict Host)
      → is_quarantined host data' ≡ is_quarantine rec.status
      → is_quarantined host (evaluate_compared true host (some ms) later cleared rec data').1
        ≡ any_mismatch ms
  unfolding evaluate_compared is_quarantined quarantine_of
  compared-verdict ms later cleared rec data' at = elim (Bool-cases (is_changed rec ms cleared)) [
    | inl changed ↦ rw (changed, lookup-insert_self) (judge-verdict rec ms later)
    | inr same ↦ rw same (at ∙ unchanged-verdict rec ms cleared same)
  ]

  -- what the measurement does where `compare` answers, and where it raises
  abbrev IsVerdict : Option (List Mismatch) → Dict Host → Answer × Dict Host → Type 0
  IsVerdict none data' (answer, after) = (answer ≡ failed) × (after ≡ data')
  IsVerdict (some ms) data' (answer, after) = is_quarantined host after ≡ any_mismatch ms

  compared-IsVerdict :
      (o : Option (List Mismatch)) (later : ℕ) (cleared : Bool) (rec : Host) (data' : Dict Host)
      → is_quarantined host data' ≡ is_quarantine rec.status
      → IsVerdict o data' (evaluate_compared true host o later cleared rec data')
  unfolding evaluate_compared
  compared-IsVerdict none later cleared rec data' at = (refl, refl)
  compared-IsVerdict (some ms) later cleared rec data' at =
      compared-verdict ms later cleared rec data' at

  evaluate-IsVerdict :
      (now later : ℕ) (data' : Dict Host) (until : Option ℕ)
      → IsPinned host base until data'
      → opens until now ≡ false
      → IsVerdict (compare m base) data' (evaluate true host m now later data')
  unfolding evaluate evaluate_found evaluate_record seal_or_judge evaluate_sealed
  evaluate-IsVerdict now later data' until p shut =
      rw (p.found, p.reseal_until, shut, p.baseline)
        (compared-IsVerdict (compare m base) later (is_some p.rec.missing_since)
          (record p.rec { baseline = some base; missing_since = none; reseal_until = until }) data'
          (is_quarantined-found host p.rec data' p.found))

verdict-nil : (ms : List Mismatch) → (any_mismatch ms ≡ false) ↔ (ms ≡ [])
verdict-nil [] = (λ e. refl, λ e. refl)
verdict-nil (m ∷ ms) = (λ e. cc e, λ e. cc e)

-- The measurement agrees with the baseline: a dictionary with a dictionary of files that says the same.
abbrev pub IsAgreed : Measurement → Manifest → Type 0
IsAgreed (manifest r) b = IsSame r b
IsAgreed _ b = ⊥

-- a dictionary whose `files` is no dictionary
abbrev pub is_odd : Measurement → Bool
is_odd (odd version paths) = true
is_odd _ = false

-- `compare` raises for no other measurement, and otherwise finds nothing exactly where the two agree
abbrev pub IsCompared : Measurement → Manifest → Option (List Mismatch) → Type 0
IsCompared m b none = is_odd m ≡ true
IsCompared m b (some ms) = (ms ≡ []) ↔ IsAgreed m b

never_nil : (out ms : List Mismatch) (m : Mismatch) → (out ++ m ∷ ms ≡ []) ↔ ⊥
never_nil [] ms m = (λ e. cc e, λ e. absurd e)
never_nil (x ∷ out) ms m = (λ e. cc e, λ e. absurd e)

odd-IsCompared :
    (version : Option String) (paths : Option (String × List String)) (b : Manifest)
    (out : List Mismatch) (files : Dict String)
    → IsCompared (odd version paths) b (compare_odd out paths files)
odd-IsCompared version none b out [] = refl
odd-IsCompared version (some (path, paths)) b out [] =
    never_nil out (map new_file paths) (new_file path)
odd-IsCompared version none b out (f ∷ files) = refl
odd-IsCompared version (some paths) b out (f ∷ files) = refl

compare-IsCompared :
    (m : Measurement) (b : Manifest)
    → IsDistinct (keys b.files)
    → IsCompared m b (compare m (manifest b))
unfolding compare
compare-IsCompared (manifest r) b d = manifests_nil r b d
compare-IsCompared (odd version paths) b d =
    odd-IsCompared version paths b (version_mismatch version b.version) b.files
compare-IsCompared other b d = never_nil [] [] malformed

-- what a saved measurement does to the quarantine
abbrev pub IsDetected : String → Measurement → Manifest → Dict Host → Answer × Dict Host → Type 0
IsDetected host m b before (answer, after) =
    ((is_odd m ≡ true) × (answer ≡ failed) × (after ≡ before))
    ⊎ ((is_quarantined host after ≡ false) ↔ IsAgreed m b)

verdict-IsDetected :
    (host : String) (m : Measurement) (b : Manifest) (o : Option (List Mismatch))
    (before : Dict Host) (s : Answer × Dict Host)
    → IsCompared m b o
    → IsVerdict host m (manifest b) o before s
    → IsDetected host m b before s
verdict-IsDetected host m b none before s odd_one (answer, kept) = inl (odd_one, answer, kept)
verdict-IsDetected host m b (some ms) before s (to_same, from_same) e =
    let (to_nil, from_nil) = verdict-nil ms in
    inr (λ out. to_same (to_nil (sym e ∙ out)), λ same. e ∙ from_nil (from_same same))

module _ (host : String) (b : Manifest) (rec : Host) (xs : List Beat) (data' : Dict Host) where
  -- Tampering is caught, and nothing else is taken for it. A host has a baseline, one hash per path.
  -- Then come heartbeats of any hosts, with and without measurements, and saves that fail among
  -- them, all while no update window of this host is open. A measurement of the host that is saved
  -- then leaves it out of quarantine exactly when it agrees with that baseline in the version, in
  -- the set of files, and in the hash of each. The one exception is a measurement that is a dictionary whose `files` is
  -- neither false nor a dictionary: it may be answered `error`, and then every record is as it was.
  pub tamper_caught :
      (m : Measurement) (now later : ℕ)
      → lookup host data' ≡ some rec
      → rec.baseline ≡ some (manifest b)
      → IsDistinct (keys b.files)
      → All (λ x. opens rec.reseal_until (clock x) ≡ false) xs
      → opens rec.reseal_until now ≡ false
      → IsDetected host m b (beats xs data') (evaluate true host m now later (beats xs data'))
  tamper_caught m now later found sealed distinct shut shut_now =
      let start : IsPinned host (manifest b) rec.reseal_until data' = record {
        rec = rec;
        found = found;
        baseline = sealed;
        reseal_until = refl;
      } in
      let p = beats-IsPinned host (manifest b) rec.reseal_until xs data' shut start in
      verdict-IsDetected host m b (compare m (manifest b)) (beats xs data')
        (evaluate true host m now later (beats xs data')) (compare-IsCompared m b distinct)
        (evaluate-IsVerdict host m (manifest b) now later _ _ p shut_now)
