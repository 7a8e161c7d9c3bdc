-- ===== src/Integrity/Evaluate.antt =====
-- backend/agent_integrity.py: `evaluate` and `note_missing`, the two paths of a heartbeat.
use sysible_controller.Prelude.{
  ℕ, zero, suc, ◌+◌, String, Bool, true, false, not, ◌&&◌, ◌||◌, Option, none, some, List, [], ◌∷◌,
  Dict, lookup, insert, is_some, leb, ◌==◌, if◌then◌else◌,
}
use sysible_controller.Integrity.State.{
  Measurement, Mismatch, malformed, stopped_reporting, version_changed, no_longer_reported,
  new_file, hash_changed, Status, ok, quarantined, Host, no_record, same_version, compare,
  is_quarantine, window_open, saved,
}

-- the dictionary that the heartbeat handler gets back
pub data Answer : Type 0 where
  resealed sealed unknown failed : Answer
  judged : Status → List Mismatch → Answer
  stands missing : Status → Answer

abbrev same_mismatch : Mismatch → Mismatch → Bool
same_mismatch malformed malformed = true
same_mismatch stopped_reporting stopped_reporting = true
same_mismatch (version_changed a b) (version_changed c d) = same_version a c && same_version b d
same_mismatch (no_longer_reported p) (no_longer_reported q) = p == q
same_mismatch (new_file p) (new_file q) = p == q
same_mismatch (hash_changed p a b) (hash_changed q c d) = p == q && a == c && b == d
same_mismatch _ _ = false

abbrev same_mismatches : List Mismatch → List Mismatch → Bool
same_mismatches [] [] = true
same_mismatches (m ∷ ms) (n ∷ ns) = same_mismatch m n && same_mismatches ms ns
same_mismatches _ _ = false

-- `rec.get("mismatches") != mismatches`
abbrev differ : Option (List Mismatch) → List Mismatch → Bool
differ none ms = true
differ (some ns) ms = not (same_mismatches ns ms)

abbrev pub verdict : List Mismatch → Status
verdict [] = ok
verdict (_ ∷ _) = quarantined

-- `rec.get("status") != new_status`
abbrev status_differs : Option Status → Status → Bool
status_differs (some ok) ok = false
status_differs (some quarantined) quarantined = false
status_differs _ _ = true

-- `"quarantined"` with its marks, or `"ok"`
abbrev pub judge : Host → List Mismatch → ℕ → Host
judge rec [] later = record rec { status = some ok; mismatches = some [] }
judge rec (m ∷ ms) later = record rec {
  status = some quarantined;
  mismatches = some (m ∷ ms);
  flagged_at = some later;
}

-- a seal on the first sighting replaces the whole record
abbrev pub seal : Measurement → ℕ → Host
seal measurements later = record no_record {
  baseline = some measurements;
  status = some ok;
  sealed_at = some later;
  mismatches = some [];
}

-- what a save is for: another status, other mismatches, or a missing timer taken off
unfoldable pub is_changed : Host → List Mismatch → Bool → Bool
is_changed rec ms cleared =
    status_differs rec.status (verdict ms) || differ rec.mismatches ms || cleared

-- from the answer of `compare` on; the handler of `evaluate` catches its exception
unfoldable pub evaluate_compared :
    Bool → String → Option (List Mismatch) → ℕ → Bool → Host → Dict Host → Answer × Dict Host
unfolding is_changed
evaluate_compared saves host none later cleared rec data' = (failed, data')
evaluate_compared saves host (some mismatches) later cleared rec data' =
    if is_changed rec mismatches cleared
    then (
      if saves then judged (verdict mismatches) mismatches else failed,
      saved saves (insert host (judge rec mismatches later) data') data',
    )
    else (judged (verdict mismatches) mismatches, data')

-- against the sealed baseline, outside an update window
unfoldable pub evaluate_sealed :
    Bool → String → Measurement → Measurement → ℕ → Bool → Host → Dict Host → Answer × Dict Host
unfolding compare evaluate_compared
evaluate_sealed saves host measurements baseline later cleared rec data' =
    evaluate_compared saves host (compare measurements baseline) later cleared rec data'

-- `rec is None or not rec.get("baseline")`, of a record that is there
unfoldable pub seal_or_judge :
    Bool
    → String
    → Measurement
    → ℕ
    → Bool
    → Option Measurement
    → Host
    → Dict Host
    → Answer × Dict Host
unfolding evaluate_sealed
seal_or_judge saves host measurements later cleared none rec data' = (
  if saves then sealed else failed,
  saved saves (insert host (seal measurements later) data') data',
)
seal_or_judge saves host measurements later cleared (some baseline) rec data' =
    evaluate_sealed saves host measurements baseline later cleared rec data'

-- from the host's record on, which a measurement has taken off the missing timer
unfoldable pub evaluate_record :
    Bool → String → Measurement → ℕ → ℕ → Bool → Host → Dict Host → Answer × Dict Host
unfolding seal_or_judge
evaluate_record saves host measurements now later cleared rec data' =
    if window_open rec now
    then (
      if saves then resealed else failed,
      saved saves
          (insert host
            (record rec {
              baseline = some measurements;
              status = some ok;
              mismatches = some [];
              sealed_at = some later;
            })
            data')
          data',
    )
    else seal_or_judge saves host measurements later cleared rec.baseline rec data'

-- from the lookup on, which a measurement follows by taking the host off the missing timer
unfoldable pub evaluate_found :
    Bool → String → Measurement → ℕ → ℕ → Option Host → Dict Host → Answer × Dict Host
unfolding evaluate_record
evaluate_found saves host measurements now later none data' = (
  if saves then sealed else failed,
  saved saves (insert host (seal measurements later) data') data',
)
evaluate_found saves host measurements now later (some rec) data' =
    evaluate_record saves host measurements now later (is_some rec.missing_since)
      (record rec { missing_since = none }) data'

-- `now` is read for the update window, and `later` for the stamps
unfoldable pub evaluate : Bool → String → Measurement → ℕ → ℕ → Dict Host → Answer × Dict Host
unfolding evaluate_found
evaluate saves host measurements now later data' =
    evaluate_found saves host measurements now later (lookup host data') data'

abbrev status_or_ok : Option Status → Status
status_or_ok none = ok
status_or_ok (some s) = s

-- `not started`: no timer, or one that reads 0
abbrev pub timer : Option ℕ → Option ℕ
timer none = none
timer (some zero) = none
timer (some (suc t)) = some (suc t)

-- `rec["missing_since"] = now`, or the grace has passed since
unfoldable pub note_timer : Bool → String → ℕ → ℕ → Option ℕ → Host → Dict Host → Answer × Dict Host
note_timer saves host grace later none rec data' = (
  if saves then missing (status_or_ok rec.status) else failed,
  saved saves (insert host (record rec { missing_since = some later }) data') data',
)
note_timer saves host grace later (some started) rec data' =
    if leb (started + grace) later
    then (
      if saves then judged quarantined (stopped_reporting ∷ []) else failed,
      saved saves
          (insert host
            (record rec {
              status = some quarantined;
              mismatches = some (stopped_reporting ∷ []);
              flagged_at = some later;
            })
            data')
          data',
    )
    else (missing (status_or_ok rec.status), data')

unfoldable pub note_found : Bool → String → ℕ → ℕ → ℕ → Option Host → Dict Host → Answer × Dict Host
unfolding note_timer
note_found saves host grace now later none data' = (unknown, data')
note_found saves host grace now later (some rec) data' =
    if not (is_some rec.baseline)
    then (unknown, data')
    else if window_open rec now
    then (stands (status_or_ok rec.status), data')
    else if is_quarantine rec.status
    then (stands quarantined, data')
    else note_timer saves host grace later (timer rec.missing_since) rec data'

-- `grace` is _MISSING_GRACE_S; `now` is read for the window, and `later` for the timer
unfoldable pub note_missing : Bool → String → ℕ → ℕ → ℕ → Dict Host → Answer × Dict Host
unfolding note_found
note_missing saves host grace now later data' =
    note_found saves host grace now later (lookup host data') data'
