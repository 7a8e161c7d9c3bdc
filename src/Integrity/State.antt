-- ===== src/Integrity/State.antt =====
-- The records of backend/agent_integrity.py, `compare`, and the functions that only read or reset.
use sysible_controller.Prelude.{
  ℕ, ◌+◌, String, Bool, true, false, Option, none, some, List, [], ◌∷◌, ◌++◌, map, Dict, lookup,
  insert, erase, contains_key, ltb, ◌==◌, if◌then◌else◌,
}

-- What an agent reports of its own files: path to hash.
pub record Manifest : Type 0 where
  pub version : Option String
  pub files : Dict String

pub data Measurement : Type 0 where
  manifest : Manifest → Measurement
  -- a dictionary whose `files` is neither false nor a dictionary: its version, and what the loop over `files`
  -- yields, at least one path, or `none` where the loop raises
  odd : Option String → Option (String × List String) → Measurement
  -- no dictionary
  other : Measurement

-- The texts that `compare` and `note_missing` compose, by what they are composed of.
pub data Mismatch : Type 0 where
  malformed stopped_reporting : Mismatch
  version_changed : Option String → Option String → Mismatch
  no_longer_reported new_file : String → Mismatch
  hash_changed : String → String → String → Mismatch

pub data Status : Type 0 where
  ok quarantined : Status

-- One host's record; `none` is a key that is not there.
pub record Host : Type 0 where
  pub baseline : Option Measurement
  pub status : Option Status
  pub mismatches : Option (List Mismatch)
  pub sealed_at : Option ℕ
  pub flagged_at : Option ℕ
  pub missing_since : Option ℕ
  pub reseal_until : Option ℕ

abbrev pub no_record : Host
no_record = record {
  baseline = none;
  status = none;
  mismatches = none;
  sealed_at = none;
  flagged_at = none;
  missing_since = none;
  reseal_until = none;
}

abbrev pub same_version : Option String → Option String → Bool
same_version none none = true
same_version (some a) (some b) = a == b
same_version _ _ = false

-- the loop over the baseline's files
unfoldable pub changed_files : Dict String → Dict String → List Mismatch
unfolding lookup
changed_files reported [] = []
changed_files reported ((path, expected) ∷ files) =
    let rest = changed_files reported files in
    elim (lookup path reported) [
      | none ↦ no_longer_reported path ∷ rest
      | some got ↦ if got == expected then rest else hash_changed path expected got ∷ rest
    ]

-- the loop over the reported files
unfoldable pub new_files : Dict String → Dict String → List Mismatch
new_files [] baseline = []
new_files ((path, _) ∷ files) baseline =
    let rest = new_files files baseline in
    if contains_key path baseline then rest else new_file path ∷ rest

abbrev pub version_mismatch : Option String → Option String → List Mismatch
version_mismatch reported baseline =
    if same_version reported baseline then [] else version_changed baseline reported ∷ []

unfoldable pub compare_manifests : Manifest → Manifest → List Mismatch
unfolding changed_files new_files
compare_manifests r b =
    version_mismatch r.version b.version
    ++ (changed_files r.files b.files ++ new_files r.files b.files)

-- Where the reported `files` is no dictionary, `rfiles.get` raises at the baseline's first file; where that has no
-- files, each path that the loop yields is new.
abbrev pub compare_odd :
    List Mismatch → Option (String × List String) → Dict String → Option (List Mismatch)
compare_odd out paths (_ ∷ _) = none
compare_odd out none [] = none
compare_odd out (some (path, paths)) [] = some (out ++ new_file path ∷ map new_file paths)

-- `none` is an exception: of the reported `files`, or of `bfiles.items()`
unfoldable pub compare : Measurement → Measurement → Option (List Mismatch)
unfolding compare_manifests
compare (manifest r) (manifest b) = some (compare_manifests r b)
compare (odd version paths) (manifest b) =
    compare_odd (version_mismatch version b.version) paths b.files
compare (manifest r) (odd _ _) = none
compare (odd _ _) (odd _ _) = none
compare _ _ = some (malformed ∷ [])

abbrev pub is_quarantine : Option Status → Bool
is_quarantine (some quarantined) = true
is_quarantine _ = false

unfoldable pub quarantine_of : Option Host → Bool
quarantine_of none = false
quarantine_of (some rec) = is_quarantine rec.status

unfoldable pub is_quarantined : String → Dict Host → Bool
unfolding quarantine_of
is_quarantined host data' = quarantine_of (lookup host data')

-- `rec.get("reseal_until", 0) > time.time()`
abbrev pub window_open : Host → ℕ → Bool
window_open rec now = elim rec.reseal_until [ none ↦ false | some until ↦ ltb now until ]

-- what `_save` leaves: a failed write leaves the previous file
abbrev pub saved : Bool → Dict Host → Dict Host → Dict Host
saved saves new old = if saves then new else old

unfoldable pub rebaseline : Bool → String → Dict Host → Dict Host
rebaseline saves host data' =
    if contains_key host data' then saved saves (erase host data') data' else data'

unfoldable pub mark_updating : Bool → ℕ → ℕ → String → Dict Host → Dict Host
mark_updating saves window now host data' =
    let rec : Host = elim (lookup host data') [ none ↦ no_record | some rec ↦ rec ] in
    let opened : Host = record rec { reseal_until = some (now + window) } in
    let cleared : Host =
      if is_quarantine rec.status
      then record opened { status = some ok; mismatches = some [] }
      else opened in
    saved saves (insert host cleared data') data'
