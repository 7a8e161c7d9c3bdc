-- ===== src/Integrity/Compare.antt =====
-- `compare` of backend/agent_integrity.py: when it finds nothing.
use sysible_controller.Prelude.{
  ◌≡◌, refl, ap, String, true, none, some, List, [], ◌∷◌, ◌++◌, Dict, lookup, contains_key, ◌↔◌,
  Bool-cases, Option, Option-cases, inl, inr, arith, eq_iff, eq_refl, keys, IsDistinct, member,
}
use sysible_controller.Integrity.State.{
  Manifest, manifest, version_mismatch, changed_files, new_files, compare_manifests, compare,
  same_version,
}

append-nil-left : {A : Type 0} (xs ys : List A) → xs ++ ys ≡ [] → (xs ≡ []) × (ys ≡ [])
append-nil-left [] ys h = (refl, h)
append-nil-left (x ∷ xs) ys h = cc h

changed-lookup :
    (p v : String) (r b : Dict String)
    → changed_files r b ≡ []
    → lookup p b ≡ some v
    → lookup p r ≡ some v
unfolding changed_files lookup
changed-lookup p v r [] h e = cc e
changed-lookup p v r ((k, w) ∷ b) h e = elim (Option-cases (lookup k r)) [
  | inl o ↦ ground (arith, eq_iff p k, o, changed-lookup p v r b)
  | inr (g, o) ↦ ground (arith, eq_iff p k, eq_iff g w, o, changed-lookup p v r b)
]

new-lookup :
    (p : String) (r b : Dict String) → new_files r b ≡ [] → lookup p b ≡ none → lookup p r ≡ none
unfolding new_files lookup
new-lookup p [] b h e = refl
new-lookup p ((k, w) ∷ r) b h e = ground (arith, eq_iff p k, new-lookup p r b)

member-keys : (p v : String) (b : Dict String) → lookup p b ≡ some v → member p (keys b) ≡ true
unfolding lookup
member-keys p v [] e = cc e
member-keys p v ((k, w) ∷ b) e = ground (arith, eq_iff p k, member-keys p v b)

contains-member :
    (p : String) (r : Dict String) → member p (keys r) ≡ true → contains_key p r ≡ true
unfolding lookup
contains-member p [] e = e
contains-member p ((k, w) ∷ r) e = ground (arith, eq_iff p k, contains-member p r)

changed_nil :
    (r b : Dict String)
    → IsDistinct (keys b)
    → ((p v : String) → lookup p b ≡ some v → lookup p r ≡ some v)
    → changed_files r b ≡ []
unfolding changed_files lookup
changed_nil r [] d h = refl
changed_nil r ((k, w) ∷ b) d h =
    let here : lookup k r ≡ some w = h k w (rw eq_refl refl) in
    let rest : changed_files r b ≡ [] =
      changed_nil r b d.1 λ p v e. h p v (ground (arith, eq_iff p k, d.0, member-keys p v b e)) in
    ground (arith, here, rest, eq_refl w)

new_nil :
    (r b : Dict String)
    → ((p : String) → member p (keys r) ≡ true → contains_key p b ≡ true)
    → new_files r b ≡ []
unfolding new_files
new_nil [] b h = refl
new_nil ((k, w) ∷ r) b h =
    let here = h k (rw eq_refl refl) in
    let rest : new_files r b ≡ [] = new_nil r b λ p e. h p (ground arith) in rw (here, rest) refl

same_version_refl : (a : Option String) → same_version a a ≡ true
same_version_refl none = refl
same_version_refl (some v) = eq_refl v

same_version-eq : (a b : Option String) → same_version a b ≡ true → a ≡ b
same_version-eq none none h = refl
same_version-eq none (some b) h = cc h
same_version-eq (some a) none h = cc h
same_version-eq (some a) (some b) h = ground (arith, eq_iff a b)

-- Two reports say the same: of the version, and of every path.
abbrev pub IsSame : Manifest → Manifest → Type 0
IsSame r b = (r.version ≡ b.version) × ((path : String) → lookup path r.files ≡ lookup path b.files)

version_nil : (a b : Option String) → version_mismatch a b ≡ [] → a ≡ b
version_nil a b h = elim (Bool-cases (same_version a b)) [
  | inl same ↦ same_version-eq a b same
  | inr other ↦ ground (arith, other)
]

compare_nil-IsSame : (r b : Manifest) → compare_manifests r b ≡ [] → IsSame r b
unfolding compare_manifests
compare_nil-IsSame r b h =
    let first = append-nil-left (version_mismatch r.version b.version) _ h in
    let files = append-nil-left (changed_files r.files b.files) _ first.1 in
    (
      version_nil r.version b.version first.0,
      λ path. elim (Option-cases (lookup path b.files)) [
        | inl gone ↦ ground (arith, gone, new-lookup path r.files b.files files.1 gone)
        | inr (v, found) ↦
            ground (arith, found, changed-lookup path v r.files b.files files.0 found)
      ],
    )

same_compare_nil :
    (r b : Manifest) → IsDistinct (keys b.files) → IsSame r b → compare_manifests r b ≡ []
unfolding compare_manifests
same_compare_nil r b d (v, same) =
    let changed : changed_files r.files b.files ≡ [] =
      changed_nil r.files b.files d λ p w e. rw (same p) e in
    let new : new_files r.files b.files ≡ [] =
      new_nil r.files b.files λ p e. ground (arith, same p, contains-member p r.files e) in
    rw (v, same_version_refl b.version, changed, new) refl

pub manifests_nil :
    (r b : Manifest) → IsDistinct (keys b.files) → (compare_manifests r b ≡ []) ↔ IsSame r b
manifests_nil r b d = (compare_nil-IsSame r b, same_compare_nil r b d)

-- For a baseline with one hash per path, `compare` finds nothing exactly when the report says the
-- same as the baseline: the same version, the same files, and the same hash of each.
pub compare-nil_iff :
    (r b : Manifest)
    → IsDistinct (keys b.files)
    → (compare (manifest r) (manifest b) ≡ some []) ↔ IsSame r b
unfolding compare
compare-nil_iff r b d =
    let (to_same, from_same) = manifests_nil r b d in
    (λ e. to_same (cc e), λ same. ap some (from_same same))
